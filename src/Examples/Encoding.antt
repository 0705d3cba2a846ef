-- ===== src/Examples/Encoding.antt =====
-- The readers on what the writers wrote, for small values.
use grdp.Prelude.{◌≡◌, [], ◌∷◌, ◌++◌, true, arith}
use grdp.Per.{read_object_identifier, write_object_identifier}
use grdp.Per.Identifier.{read_object_identifier-write}

-- The identifier of T.124: 0, 0, 20, 124, 0, 1.
read_object_identifier-write_example :
    read_object_identifier
      (write_object_identifier 0 0 20 124 0 1 ++ 9 ∷ [])
      (0 ∷ 0 ∷ 20 ∷ 124 ∷ 0 ∷ 1 ∷ [])
    ≡ (true, 9 ∷ [])
read_object_identifier-write_example =
    read_object_identifier-write 0 0 20 124 0 1 (9 ∷ []) (omega arith)
