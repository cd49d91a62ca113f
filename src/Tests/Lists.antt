-- ===== src/Tests/Lists.antt =====
-- The secret inventory and assignments to paths, on concrete programs and values.
use vejas.Base.{ℕ, String, ◌≡◌, ◌≢◌, arith, eq_iff, [], ◌∷◌, unwrap_or}
use vejas.Vjs.Value.{Entries, number, string, null, no_entries, entry, get}
use vejas.Vjs.Ast.{Block, lit, call, expr, no_exprs, emit, end_block, stmt}
use vejas.Vjs.Static.Secret.{walk_stmts}
use vejas.Vjs.Static.Secret.Exhaustive.{listed, block_names, listed-walk_stmts}
use vejas.Vjs.Run.{assign_path}
use vejas.Vjs.Run.Assign.{value_at, assign_path-reads}
use vejas.Tests.Toy.{toy}

-- emit "vx.bill", secret("bank/key")
abbrev billing : Block ℕ
billing =
    stmt (emit (lit (string "vx.bill")) (call "secret" (expr (lit (string "bank/key")) no_exprs)))
      end_block

listed-walk_stmts_example :
    listed "bank/key" (walk_stmts billing []) ≡ block_names "bank/key" billing
listed-walk_stmts_example = listed-walk_stmts "bank/key" billing

-- A number stands where the path wants an object.
abbrev vars : Entries ℕ
vars = entry "order" (number 5) (entry "id" (number 1) no_entries)

other_name : ◌≢◌ {A = String} "order" "id"
other_name e = ground (arith, e, eq_iff "order" "id")

assign_path-reads_example :
    (value_at
        ("id" ∷ [])
        (unwrap_or (get "order" (assign_path toy ("order" ∷ "id" ∷ []) (number 7) vars)) null)
      ≡ number 7)
    × (get "id" (assign_path toy ("order" ∷ "id" ∷ []) (number 7) vars) ≡ get "id" vars)
assign_path-reads_example =
    assign_path-reads toy "order" "id" ("id" ∷ []) (number 7) vars other_name
