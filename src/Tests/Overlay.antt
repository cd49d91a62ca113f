-- ===== src/Tests/Overlay.antt =====
-- The version overlay over a bucket that is a function from keys to values.
use vejas.Base.{
  String, ◌≡◌, refl, sym, ◌∙◌, ◌≢◌, ap, arith, str_eq, eq_iff, Option, none, some, [], ◌∷◌, length,
  ◌≤◌, if◌then◌else◌,
}
use vejas.Exec.{ok, OnOk}
use vejas.Vjs.Value.{Json, null, object, get_field, as_str}
use vejas.Versions.{
  Bucket, Db, overlay, evict, evicted, hash_content, hash_text, hash_bytes, hash_byte, hex,
  hex_digit, utf8, key_of, put_version, resolve_source, note_eviction, eviction_record, get_version,
  settle, text_field, version_record,
}
use vejas.Versions.GitWins.{BucketLaws, resolve_source-put_version, resolve_source-Forked, Forked}
use vejas.Versions.Log.{note_eviction-newest}
use vejas.Tests.Toy.{toy, insert_entry}

-- FNV-1a of "a", as its authors publish it.
hash_content-a : hash_content "a" ≡ "af63dc4c8601ec8c"
unfolding hash_content hash_text hash_bytes hash_byte hex hex_digit utf8
hash_content-a = refl

-- The one version that is stored.
abbrev stored : Json toy
stored = object (version_record toy "pay" "emit" "af63dc4c8601ec8c" "ann" 3)

abbrev bucket : Bucket toy (String → Option String)
bucket = record {
  get = λ k s. ok (s k);
  put = λ k v s. (ok 1, λ j. if str_eq k j then some v else s j);
  delete = λ k s. (ok tt, λ j. if str_eq k j then none else s j);
  from_slice = λ b. some stored;
}

pub found : (k : String) (v w : Option String) → (if str_eq k k then v else w) ≡ v
found k v w = ground (arith, eq_iff k k)

bucket-BucketLaws : BucketLaws bucket
bucket-BucketLaws = record {
  get-put = λ k v n s e. ap (λ o. ok o) (found k (some v) (s k));
  get-delete = λ k s e. ap (λ o. ok o) (found k none (s k));
}

abbrev empty : String → Option String
empty k = none

abbrev published : Db toy (String → Option String)
published = record {
  kv = (put_version bucket "pay" "emit" "af63dc4c8601ec8c" "ann" 3 empty).1;
  evictions = [];
}

-- The baseline "b" is another than the one that the version was made from.
resolve_source-put_version_example :
    (resolve_source (some bucket) "pay" "b" 4 published ≡ (
      if str_eq "af63dc4c8601ec8c" (hash_content "b") then (("emit", overlay), published) else (
        ("b", evicted "af63dc4c8601ec8c" (hash_content "b")),
        record {
          kv = (bucket.delete (key_of "pay") published.kv).1;
          evictions = eviction_record toy "pay" "af63dc4c8601ec8c" (hash_content "b") 4 ∷ [];
        },
      )))
    × OnOk
        (λ _. get_version bucket "pay" ((bucket.delete (key_of "pay") published.kv).1) ≡ none)
        (bucket.delete (key_of "pay") published.kv).0
unfolding put_version
resolve_source-put_version_example =
    resolve_source-put_version bucket "pay" "b" 4 "emit" "af63dc4c8601ec8c" "ann" 3 1 empty
      published.kv [] bucket-BucketLaws refl refl

note_eviction-newest_example :
    (note_eviction bucket "pay" "p" "h" 4 (null ∷ [])
      ≡ null ∷ eviction_record toy "pay" "p" "h" 4 ∷ [])
    × (length (note_eviction bucket "pay" "p" "h" 4 (null ∷ [])) ≤ 50)
note_eviction-newest_example = note_eviction-newest bucket "pay" "p" "h" 4 (null ∷ [])

-- The published version runs, since its parent is the hash of "a".
published-runs : (resolve_source (some bucket) "pay" "a" 4 published).0 ≡ ("emit", overlay)
unfolding put_version resolve_source settle get_version text_field get_field as_str hash_content
    hash_text hash_bytes hash_byte hex hex_digit utf8 key_of version_record evict insert_entry
published-runs = refl

other_source : ◌≢◌ {A = String} "emit" "a"
other_source e = ground (arith, e, eq_iff "emit" "a")

not_baseline : (resolve_source (some bucket) "pay" "a" 4 published).0.0 ≢ "a"
not_baseline e = other_source (sym (ap (λ r. r.0) published-runs) ∙ e)

resolve_source-Forked_example :
    Forked bucket "pay" "a" 4
      (get_version bucket "pay" (published.kv))
      (resolve_source (some bucket) "pay" "a" 4 published).0.0
resolve_source-Forked_example = resolve_source-Forked bucket "pay" "a" 4 published not_baseline
