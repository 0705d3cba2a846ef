-- ===== src/Pdu/Surface/Runs.antt =====
-- protocol/pdu/data.go: what the writes of the run-length decoder leave in the output.
use grdp.Prelude.{
  ℕ, zero, suc, ◌+◌, ◌-◌, ◌≤◌, ◌<◌, ◌≡◌, refl, ap, sym, ◌∙◌, List, [], ◌∷◌, ◌++◌, min, ltb, length,
  take, drop, replicate, arith, Bool-cases, inl, inr, append_assoc, take-append, drop-append,
  length-append,
}
use grdp.Pdu.Surface.Nrle.{splice, double, write_run}

module _ {A : Type 0} where
  drop_plus : (done tail : List A) (n : ℕ) → drop (length done + n) (done ++ tail) ≡ drop n tail
  drop_plus [] tail n = let e : 0 + n ≡ n = omega arith in ap (λ k. drop k tail) e
  drop_plus (x ∷ done) tail n =
      let e : suc (length done) + n ≡ suc (length done + n) = omega arith in
      ap (λ k. drop k (x ∷ (done ++ tail))) e ∙ drop_plus done tail n

  pub drop-drop : (a b : ℕ) (xs : List A) → drop a (drop b xs) ≡ drop (b + a) xs
  drop-drop a zero xs = let e : a ≡ 0 + a = omega arith in ap (λ k. drop k xs) e
  drop-drop zero (suc b) [] = let e : suc b ≡ suc b + 0 = omega arith in ap (λ k. drop k []) e
  drop-drop (suc a) (suc b) [] =
      let e : suc (b + suc a) ≡ suc b + suc a = omega arith in ap (λ k. drop k []) e
  drop-drop a (suc b) (x ∷ xs) =
      let e : suc (b + a) ≡ suc b + a = omega arith in
      drop-drop a b xs ∙ ap (λ k. drop k (x ∷ xs)) e

  replicate_add :
      (a b : ℕ) (v : A) (ys : List A)
      → replicate a v ++ (replicate b v ++ ys) ≡ replicate (a + b) v ++ ys
  replicate_add zero b v ys = let e : b ≡ 0 + b = omega arith in ap (λ k. replicate k v ++ ys) e
  replicate_add (suc a) b v ys =
      let e : suc (a + b) ≡ suc a + b = omega arith in
      ap (λ t. v ∷ t) (replicate_add a b v ys) ∙ ap (λ k. replicate k v ++ ys) e

  take-replicate :
      (k n : ℕ) (v : A) (ys : List A) → k ≤ n → take k (replicate n v ++ ys) ≡ replicate k v
  take-replicate zero n v ys h = refl
  take-replicate (suc k) zero v ys h = absurd (omega arith)
  take-replicate (suc k) (suc n) v ys h = ap (λ t. v ∷ t) (take-replicate k n v ys (omega arith))

  pub length-replicate : (n : ℕ) (v : A) → length (replicate n v) ≡ n
  length-replicate zero v = refl
  length-replicate (suc n) v = omega (arith, length-replicate n v)

-- A write at the end of what is done takes the place of as many bytes.
pub splice_at :
    (done tail bytes : List ℕ)
    → splice (done ++ tail) (length done) bytes ≡ done ++ bytes ++ drop (length bytes) tail
splice_at done tail bytes = rw (take-append done tail, drop_plus done tail (length bytes))

-- The output while a run is copied: what was there, `wrote` bytes of the run, and the rest.
abbrev partial : List ℕ → ℕ → ℕ → List ℕ → List ℕ
partial done wrote v rest = done ++ (replicate wrote v ++ rest)

double_step :
    (done rest : List ℕ) (wrote step v : ℕ)
    → step ≤ wrote
    → splice
        (partial done wrote v rest)
        (length done + wrote)
        (take step (drop (length done) (partial done wrote v rest)))
      ≡ partial done (wrote + step) v (drop step rest)
double_step done rest wrote step v h =
    let whole = done ++ replicate wrote v in
    let taken : take step (drop (length done) (partial done wrote v rest)) ≡ replicate step v =
      rw (drop-append done (replicate wrote v ++ rest)) (take-replicate step wrote v rest h) in
    let len : length whole ≡ length done + wrote =
      omega (arith, length-append done (replicate wrote v), length-replicate wrote v) in
    let part = replicate step v in
    let left = drop step rest in
    ap (splice (partial done wrote v rest) (length done + wrote)) taken
    ∙ ap (λ p. splice p (length done + wrote) part)
        (sym (append_assoc done (replicate wrote v) rest))
    ∙ ap (λ k. splice (whole ++ rest) k part) (sym len)
    ∙ splice_at whole rest part
    ∙ ap (λ k. whole ++ part ++ drop k rest) (length-replicate step v)
    ∙ append_assoc whole part left
    ∙ append_assoc done (replicate wrote v) (part ++ left)
    ∙ ap (λ t. done ++ t) (replicate_add wrote step v left)

double_fills :
    (fuel : ℕ) (done rest : List ℕ) (n wrote v : ℕ)
    → 0 < wrote
    → wrote ≤ n
    → n - wrote ≤ fuel
    → double fuel (length done) n wrote (partial done wrote v rest)
      ≡ partial done n v (drop (n - wrote) rest)
unfolding double
double_fills zero done rest n wrote v h k l =
    let e : n ≡ wrote = omega arith in
    let z : n - wrote ≡ 0 = omega arith in rw z (ap (λ m. partial done m v rest) (sym e))
double_fills (suc fuel) done rest n wrote v h k l = elim (Bool-cases (ltb wrote n)) [
  | inl e ↦
      let step = min wrote (n - wrote) in
      let ih =
        double_fills fuel done (drop step rest) n (wrote + step) v (omega arith) (ground arith)
          (ground arith) in
      rw (e, double_step done rest wrote step v (omega arith), double)
        (ih
          ∙ ap (partial done n v) (drop-drop (n - (wrote + step)) step rest)
          ∙ ap (λ k. partial done n v (drop k rest)) (omega arith))
  | inr e ↦
      let q : n ≡ wrote = ground arith in
      let z : n - wrote ≡ 0 = omega arith in
      rw (e, z, double) (ap (λ m. partial done m v rest) (sym q))
]

-- A run of n bytes at the end of what is done.
pub write_run_lem :
    (done tail : List ℕ) (v n : ℕ)
    → 0 < n
    → n ≤ length tail
    → write_run v n (length done) (done ++ tail) ≡ done ++ (replicate n v ++ drop n tail)
unfolding write_run
write_run_lem done tail v n h k =
    let first : splice (done ++ tail) (length done) (v ∷ []) ≡ partial done 1 v (drop 1 tail) =
      splice_at done tail (v ∷ []) ∙ append_assoc done (v ∷ []) (drop 1 tail) in
    let e : 1 + (n - 1) ≡ n = omega arith in
    ap (double n (length done) n 1) first
    ∙ double_fills n done (drop 1 tail) n 1 v (omega arith) (omega arith) (omega arith)
    ∙ ap (partial done n v) (drop-drop (n - 1) 1 tail)
    ∙ ap (λ m. partial done n v (drop m tail)) e
