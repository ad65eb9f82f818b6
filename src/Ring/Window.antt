-- ===== src/Ring/Window.antt =====
-- The entries between the two pointers of a ring, oldest first: writing, taking, full and empty.
use sw_daq_tofhir.Base.{
  ℕ, zero, suc, ◌+◌, ◌-◌, ◌*◌, ◌%◌, ◌<◌, ◌≤◌, ◌≡◌, ◌≢◌, refl, ap, ap₂, ◌⊎◌, inl, inr, true, List,
  [], ◌∷◌, ◌++◌, length, arith, ◌↔◌,
}
use native.Mathlib.Nat.{mod-eq_of_lt, mod-eq-sub-mod}
use native.Mathlib.Decide.{dec_lt}
use sw_daq_tofhir.Ring.{next, is_full, Ahead, update}

-- The slot of a pointer: the pointer itself on the first round, n less on the second.
slot_cases : (n p : ℕ) → p < 2 * n → ((p < n) × (p % n ≡ p)) ⊎ ((n ≤ p) × (p % n + n ≡ p))
slot_cases n p h = elim (dec_lt p n) [
  | yes q ↦ inl (q, mod-eq_of_lt q)
  | no q ↦ inr (
    omega arith,
    omega (
      arith,
      mod-eq-sub-mod {n = p} {m = n} (omega arith),
      mod-eq_of_lt {n = p - n} {m = n} (omega arith),
    ),
  )
]

-- The pointer after p, on both sides of the end.
pub next_cases :
    (n p : ℕ)
    → p < 2 * n
    → ((p + 1 < 2 * n) × (next n p ≡ p + 1)) ⊎ ((p + 1 ≡ 2 * n) × (next n p ≡ 0))
next_cases n p h = elim (dec_lt (p + 1) (2 * n)) [
  | yes q ↦ inl (q, mod-eq_of_lt q)
  | no q ↦ inr (
    omega arith,
    omega (
      arith,
      mod-eq-sub-mod {n = p + 1} {m = 2 * n} (omega arith),
      mod-eq_of_lt {n = p + 1 - 2 * n} {m = 2 * n} (omega arith),
    ),
  )
]

-- Writing one more entry.
pub Ahead-write : {n rd wr k : ℕ} → Ahead n rd wr k → k < n → Ahead n rd (next n wr) (suc k)
Ahead-write {n} {rd} {wr} {k} a h = record {
  rd_in = a.rd_in;
  wr_in = grind (arith, next_cases n wr a.wr_in);
  fits = h;
  apart = grind (arith, next_cases n wr a.wr_in, a.apart);
}

-- Taking the oldest entry.
pub Ahead-take : {n rd wr k : ℕ} → Ahead n rd wr (suc k) → Ahead n (next n rd) wr k
Ahead-take {n} {rd} {wr} {k} a = record {
  rd_in = grind (arith, next_cases n rd a.rd_in);
  wr_in = a.wr_in;
  fits = omega (arith, a.fits);
  apart = grind (arith, next_cases n rd a.rd_in, a.apart);
}

-- Fewer than n steps ahead is another slot; n steps ahead is the same slot.
pub slot_ne : {n rd wr k : ℕ} → Ahead n rd wr k → 0 < k → k < n → wr % n ≢ rd % n
slot_ne {n} {rd} {wr} {k} a h l e =
    grind (arith, slot_cases n rd a.rd_in, slot_cases n wr a.wr_in, a.apart)

slot_eq : {n rd wr k : ℕ} → Ahead n rd wr k → k ≡ n → wr % n ≡ rd % n
slot_eq {n} {rd} {wr} {k} a e =
    grind (arith, slot_cases n rd a.rd_in, slot_cases n wr a.wr_in, a.apart)

-- The pointers are equal exactly when nothing is unread.
pub empty_iff : {n rd wr k : ℕ} → Ahead n rd wr k → (wr ≡ rd) ↔ (k ≡ 0)
empty_iff {n} {rd} {wr} {k} a = (λ e. grind (arith, a.apart), λ e. grind (arith, a.apart))

-- The ring is full exactly when n entries are unread.
pub is_full_iff : {n rd wr k : ℕ} → Ahead n rd wr k → 0 < n → (is_full n wr rd ≡ true) ↔ (k ≡ n)
is_full_iff {n} {rd} {wr} {k} a h = (
  λ e. grind (arith, slot_cases n rd a.rd_in, slot_cases n wr a.wr_in, a.apart),
  λ e. ground (arith, slot_eq a e, empty_iff a),
)

module _ {ℓ} {A : Type ℓ} (n : ℕ) where
  -- The k entries from pointer p on.
  abbrev pub window : (ℕ → A) → ℕ → ℕ → List A
  window mem p zero = []
  window mem p (suc k) = mem (p % n) ∷ window mem (next n p) k

  -- A write to the slot of the write pointer of a ring that is not full appends to the window.
  pub window-update :
      (mem : ℕ → A) (v : A) (k : ℕ) {rd wr : ℕ}
      → Ahead n rd wr k
      → k < n
      → window (update mem (wr % n) v) rd (suc k) ≡ window mem rd k ++ (v ∷ [])
  window-update mem v zero {rd} {wr} a h =
      let e : wr ≡ rd = (empty_iff a).1 refl in rw e (ground arith)
  window-update mem v (suc k) {rd} {wr} a h =
      ap₂ ◌∷◌ (ground (arith, slot_ne a)) (window-update mem v k (Ahead-take a) (omega arith))

  -- Such a write leaves the unread entries as they are.
  pub window-update_same :
      (mem : ℕ → A) (v : A) (k : ℕ) {rd wr : ℕ}
      → Ahead n rd wr k
      → k < n
      → window (update mem (wr % n) v) rd k ≡ window mem rd k
  window-update_same mem v zero a h = refl
  window-update_same mem v (suc k) {rd} {wr} a h =
      ap₂ ◌∷◌ (ground (arith, slot_ne a)) (window-update_same mem v k (Ahead-take a) (omega arith))

  -- The entry at the write pointer is the next one.
  pub window-suc :
      (mem : ℕ → A) (k : ℕ) {rd wr : ℕ}
      → Ahead n rd wr k
      → k < n
      → window mem rd (suc k) ≡ window mem rd k ++ (mem (wr % n) ∷ [])
  window-suc mem zero {rd} {wr} a h = let e : wr ≡ rd = (empty_iff a).1 refl in rw e refl
  window-suc mem (suc k) {rd} {wr} a h =
      ap (λ t. mem (rd % n) ∷ t) (window-suc mem k (Ahead-take a) (omega arith))

  -- A write to the slot of rd does not touch the entries from j places after it on.
  window-behind :
      (mem : ℕ → A) (v : A) (k j : ℕ) {rd q : ℕ}
      → Ahead n rd q j
      → 0 < j
      → j + k ≤ n
      → window (update mem (rd % n) v) q k ≡ window mem q k
  window-behind mem v zero j a h l = refl
  window-behind mem v (suc k) j {rd} {q} a h l = ap₂ ◌∷◌ (ground (arith, slot_ne a)) (
      window-behind mem v k (suc j) (Ahead-write a (omega (arith, l))) (omega arith)
        (omega (arith, l)))

  -- A write to the slot of the read pointer changes the oldest entry only.
  pub window-update_head :
      (mem : ℕ → A) (v : A) (k : ℕ) {rd wr : ℕ}
      → Ahead n rd wr (suc k)
      → window (update mem (rd % n) v) rd (suc k) ≡ v ∷ window mem (next n rd) k
  window-update_head mem v k {rd} {wr} a = ap₂ ◌∷◌ (ground arith) (
      window-behind mem v k 1
        (Ahead-write
          (record {
            rd_in = a.rd_in;
            wr_in = a.rd_in;
            fits = omega arith;
            apart = inl (omega arith);
          })
          (omega (arith, a.fits)))
        (omega arith) (omega (arith, a.fits)))

  pub length-window : (mem : ℕ → A) (p k : ℕ) → length (window mem p k) ≡ k
  length-window mem p zero = refl
  length-window mem p (suc k) = ap suc (length-window mem (next n p) k)
