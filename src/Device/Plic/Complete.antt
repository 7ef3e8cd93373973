-- ===== src/Device/Plic/Complete.antt =====
-- Claims and completions of difftest/src/rv_plic.hpp.
use hdu_cpu_lab.Common.{
  ℕ, zero, suc, ◌+◌, ◌*◌, ◌/◌, ◌%◌, ◌^◌, ◌<◌, ◌≡◌, refl, sym, ap, ◌∙◌, subst, Bool, true, false,
  not, ◌&&◌, List, [], ◌∷◌, length, get_or, set, get_or-set_self, length-set, arith, leb,
}
use native.Mathlib.Nat.{
  add-mul-div_left, add-mul-mod_self_left, div-div-eq-div-mul, div-eq_of_lt, mod-eq_of_lt, mod-lt,
  div-add-mod, one-le-pow, pow-suc,
}
use hdu_cpu_lab.Common.Words.{set_field}
use hdu_cpu_lab.Common.Bytes.{to_bytes, length-to_bytes, from_bytes-to_bytes}
use hdu_cpu_lab.Device.{done}
use hdu_cpu_lab.Device.Plic.{Plic, set_source, shifted, eligible, context_at, do_read, do_write}

-- A word split at bit k, with q for 2 ^ k.
module _ (a q r : ℕ) (positive : 0 < q) (low : r < q) where
  split-div : (q * a + r) / q ≡ a
  split-div =
      ap (λ x. x / q) (omega arith)
      ∙ add-mul-div_left r a positive
      ∙ ap (λ x. x + a) (div-eq_of_lt low)
      ∙ omega arith

  split-mod : (q * a + r) % q ≡ r
  split-mod = ap (λ x. x % q) (omega arith) ∙ add-mul-mod_self_left r q a ∙ mod-eq_of_lt low

module _ (k : ℕ) where
  positive : 0 < 2 ^ k
  positive = omega (arith, one-le-pow k 2 (omega arith))

  double : 2 ^ (k + 1) ≡ 2 ^ k * 2
  double = ap (λ n. 2 ^ n) (omega arith) ∙ pow-suc 2 k

  half : (x : ℕ) → x / 2 ^ (k + 1) ≡ x / 2 ^ k / 2
  half x = ap (λ e. x / e) double ∙ sym (div-div-eq-div-mul x (2 ^ k) 2)

  set_field-bit :
      (x v : ℕ) → v < 2 → set_field x k 1 v ≡ 2 ^ k * (2 * (x / 2 ^ k / 2) + v) + x % 2 ^ k
  set_field-bit x v h = rw (half x, double, mod-eq_of_lt h) (omega arith)

  -- The bit that has been set is seen, and clearing it gives the word from before.
  set_field-high : (x : ℕ) → set_field x k 1 1 / 2 ^ k ≡ 2 * (x / 2 ^ k / 2) + 1
  set_field-high x =
      ap (λ y. y / 2 ^ k) (set_field-bit x 1 (omega arith))
      ∙ split-div (2 * (x / 2 ^ k / 2) + 1) (2 ^ k) (x % 2 ^ k) positive (mod-lt x positive)

  set_field-restores : (x : ℕ) → x / 2 ^ k % 2 ≡ 0 → set_field (set_field x k 1 1) k 1 0 ≡ x
  set_field-restores x clear =
      set_field-bit (set_field x k 1 1) 0 (omega arith)
      ∙ ap (λ t. 2 ^ k * t + set_field x k 1 1 % 2 ^ k) quotient
      ∙ ap (λ t. 2 ^ k * (x / 2 ^ k) + t) rest
      ∙ div-add-mod x (2 ^ k)
    where
      quotient : 2 * (set_field x k 1 1 / 2 ^ k / 2) + 0 ≡ x / 2 ^ k
      quotient = ap (λ t. 2 * (t / 2) + 0) (set_field-high x) ∙ omega (arith, clear)

      rest : set_field x k 1 1 % 2 ^ k ≡ x % 2 ^ k
      rest =
          ap (λ y. y % 2 ^ k) (set_field-bit x 1 (omega arith))
          ∙ split-mod (2 * (x / 2 ^ k / 2) + 1) (2 ^ k) (x % 2 ^ k) positive (mod-lt x positive)

set-restores : (xs : List ℕ) (i v : ℕ) → set (set xs i v) i (get_or xs i 0) ≡ xs
set-restores [] i v = refl
set-restores (x ∷ xs) zero v = refl
set-restores (x ∷ xs) (suc i) v = ap (λ l. x ∷ l) (set-restores xs i v)

module _ (xs : List ℕ) (i : ℕ) (inside : i / 32 < length xs) where
  shifted-set_source : shifted (set_source xs i 1) i ≡ true
  shifted-set_source =
      let here =
        get_or-set_self xs (i / 32) (set_field (get_or xs (i / 32) 0) (i % 32) 1 1) 0 inside in
      rw (here, set_field-high (i % 32) (get_or xs (i / 32) 0)) (ground arith)

  set_source-restores :
      get_or xs (i / 32) 0 / 2 ^ (i % 32) % 2 ≡ 0 → set_source (set_source xs i 1) i 0 ≡ xs
  set_source-restores clear =
      let here =
        get_or-set_self xs (i / 32) (set_field (get_or xs (i / 32) 0) (i % 32) 1 1) 0 inside in
      rw (here, set_field-restores (i % 32) (get_or xs (i / 32) 0) clear)
        (set-restores xs (i / 32) _)

-- The address of the claim register of a context.
abbrev pub claim_addr : ℕ → ℕ
claim_addr context_id = 0x200004 + 0x1000 * context_id

abbrev pub taken : Plic → ℕ → Plic
taken p id = record p { claimed = set_source p.claimed id 1 }

module _ (context_id : ℕ) (low : context_id < 2 ^ 32) where
  context-place : context_at (claim_addr context_id) ≡ context_id
  context-place = omega arith

  offset-place : claim_addr context_id % 0x1000 ≡ 4
  offset-place = omega arith

  read-claim :
      (p : Plic)
      → context_id < p.nr_context
      → context_id < length p.claim
      → get_or p.claim context_id 0 / 32 < length p.claimed
      → do_read p (claim_addr context_id) 4
        ≡ done (to_bytes 4 (get_or p.claim context_id 0), taken p (get_or p.claim context_id 0))
  unfolding do_read
  read-claim p known inside room = rw (context-place, offset-place) (ground arith)

  write-claim :
      (p : Plic) (id : ℕ)
      → context_id < p.nr_context
      → id < 256 ^ 4
      → id / 32 < length p.claimed
      → do_write p (claim_addr context_id) (to_bytes 4 id)
        ≡ done (record p { claimed = set_source p.claimed id 0 })
  unfolding do_write to_bytes
  write-claim p id known small room =
      rw (context-place, offset-place, from_bytes-to_bytes 4 id small, length-to_bytes 4 id)
        (ground arith)

and_last : (x y z w : Bool) → w ≡ false → (x && y && z && w) ≡ false
and_last false y z w e = refl
and_last true false z w e = refl
and_last true true false w e = refl
and_last true true true w e = e

-- A claim of a context, and its completion.
pub record Claims (p : Plic) (context_id id : ℕ) : Type 0 where
  pub reads : do_read p (claim_addr context_id) 4 ≡ done (to_bytes 4 id, taken p id)
  pub withheld : (c : ℕ) → eligible (taken p id) c id ≡ false
  pub completes : do_write (taken p id) (claim_addr context_id) (to_bytes 4 id) ≡ done p

-- For a context of the PLIC below 2 ^ 32, whose claim, the source that get_int recorded for it, lies in
-- the array of claimed bits with its bit clear: a read of the context's claim register delivers the
-- source and marks it as claimed, which makes it eligible for no context; writing the delivered bytes
-- back to the register, the completion, restores the PLIC from before the read.
pub claim-Claims :
    (p : Plic) (context_id : ℕ)
    → context_id < 2 ^ 32
    → context_id < p.nr_context
    → context_id < length p.claim
    → get_or p.claim context_id 0 < 2 ^ 32
    → get_or p.claim context_id 0 / 32 < length p.claimed
    → get_or p.claimed (get_or p.claim context_id 0 / 32) 0
        / 2 ^ (get_or p.claim context_id 0 % 32)
        % 2
      ≡ 0
    → Claims p context_id (get_or p.claim context_id 0)
claim-Claims p context_id low known inside small room clear = record {
  reads = read-claim context_id low p known inside room;
  withheld = λ c.
      and_last (leb (get_or p.threshold c 0) (get_or p.priority id 0)) (shifted p.pending id)
        (shifted (get_or p.enable c []) id) _ (ap not (shifted-set_source p.claimed id room));
  completes =
      write-claim context_id low (taken p id) id known small marked
      ∙ ap (λ xs. done (record p { claimed = xs })) (set_source-restores p.claimed id room clear);
}
  where
    id : ℕ
    id = get_or p.claim context_id 0

    marked : id / 32 < length (set_source p.claimed id 1)
    marked =
        subst (λ n. id / 32 < n)
          (sym (
            length-set p.claimed (id / 32)
              (set_field (get_or p.claimed (id / 32) 0) (id % 32) 1 1)))
          room
