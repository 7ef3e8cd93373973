-- ===== src/Common/Run.antt =====
-- A call over a state: it comes back with a result and the new state, it aborts, by a failed assertion
-- or by undefined behaviour, or it ends the process with a status.

use Prim.Native.Nat.{ℕ}
use hdu_cpu_lab.Common.Tests.{if◌then◌else◌}
use mathlib.Core.Bool.{Bool, true, false}
use mathlib.Core.Path.{◌≡◌, refl, ap, subst}
use mathlib.Core.Logic.{◌⊎◌, inl, inr}

pub data Ran (S : Type 0) (A : Type 0) : Type 0 where
  ret : A → S → Ran S A
  abort : Ran S A
  exits : ℕ → Ran S A

infixl 5 ◌>>=◌ ◌>>◌
abbrev pub ◌>>=◌ : {S A B : Type 0} → (S → Ran S A) → (A → S → Ran S B) → S → Ran S B
◌>>=◌ m f s = elim (m s) [ ret a t ↦ f a t | abort ↦ abort | exits n ↦ exits n ]

abbrev pub ◌>>◌ : {S A B : Type 0} → (S → Ran S A) → (S → Ran S B) → S → Ran S B
m >> k = m >>= λ _. k

-- A call on one component of a larger state.
unfoldable pub within : {S T A : Type 0} → (T → S) → (S → T → T) → (S → Ran S A) → T → Ran T A
within get put m t = elim (m (get t)) [
  | ret a s ↦ ret a (put s t)
  | abort ↦ abort
  | exits n ↦ exits n
]

-- Inversion of a sequence that comes back.
pub >>=-inv :
    {S A B : Type 0} (m : S → Ran S A) (f : A → S → Ran S B) (s : S) {b : B} {u : S}
    → (m >>= f) s ≡ ret b u
    → (a : A) × (t : S) × (m s ≡ ret a t) × (f a t ≡ ret b u)
>>=-inv {S} {A} {B} m f s {b} {u} h = go (m s) refl h
  where
    go :
        (x : Ran S A)
        → m s ≡ x
        → (elim x [ ret a t ↦ f a t | abort ↦ abort | exits n ↦ exits n ]) ≡ ret b u
        → (a : A) × (t : S) × (m s ≡ ret a t) × (f a t ≡ ret b u)
    go (ret a t) e k = (a, t, e, k)
    go abort e k = cc
    go (exits n) e k = cc

-- A call that comes back keeps a property of the state.
abbrev pub Preserves : {S A : Type 0} → (S → Type 0) → (S → Ran S A) → Type 0
Preserves {S} {A} P m = (s : S) (a : A) (t : S) → P s → m s ≡ ret a t → P t

pub ret-Preserves : {S A : Type 0} (P : S → Type 0) (a : A) → Preserves P (ret a)
ret-Preserves P a s b t p e = subst P (ap (state_or s) e) p
  where
    state_or : {S A : Type 0} → S → Ran S A → S
    state_or s (ret a t) = t
    state_or s abort = s
    state_or s (exits n) = s

pub >>=-Preserves :
    {S A B : Type 0} (P : S → Type 0) (m : S → Ran S A) (f : A → S → Ran S B)
    → Preserves P m
    → ((a : A) → Preserves P (f a))
    → Preserves P (m >>= f)
>>=-Preserves P m f hm hf s b u p e =
    let (a, t, q, r) = >>=-inv m f s e in hf a t b u (hm s a t p q) r

pub within-Preserves :
    {S T A : Type 0} (P : S → Type 0) (Q : T → Type 0) (get : T → S) (put : S → T → T)
    (m : S → Ran S A)
    → ((t : T) → Q t → P (get t))
    → ((s : S) (t : T) → Q t → P s → Q (put s t))
    → Preserves P m
    → Preserves Q (within get put m)
unfolding within
within-Preserves {S} {T} {A} P Q get put m down up keep t a u q e = go (m (get t)) refl e
  where
    go :
        (x : Ran S A)
        → m (get t) ≡ x
        → (elim x [ ret a s ↦ ret a (put s t) | abort ↦ abort | exits n ↦ exits n ]) ≡ ret a u
        → Q u
    go (ret b s) k h = ret-Preserves Q b (put s t) a u (up s t q (keep (get t) b s (down t q) k)) h
    go abort k h = cc
    go (exits n) k h = cc

pub checked-Preserves :
    {S A : Type 0} (P : S → Type 0) (x : Bool) (a b : A) (s t : S)
    → P s
    → (if x then abort else ret a s) ≡ ret b t
    → P t
checked-Preserves P true a b s t p e = cc
checked-Preserves P false a b s t p e = ret-Preserves P a s b t p e

pub if-Preserves :
    {S A : Type 0} (P : S → Type 0) (x : Bool) (m n : S → Ran S A)
    → Preserves P m
    → Preserves P n
    → Preserves P (λ s. if x then m s else n s)
if-Preserves P true m n hm hn = hm
if-Preserves P false m n hm hn = hn

-- The test reads the state.
pub test-Preserves :
    {S A : Type 0} (P : S → Type 0) (x : S → Bool) (m n : S → Ran S A)
    → Preserves P m
    → Preserves P n
    → Preserves P (λ s. if x s then m s else n s)
test-Preserves P x m n hm hn s = if-Preserves P (x s) m n hm hn s

pub set-Preserves :
    {S A : Type 0} (P : S → Type 0) (a : A) (f : S → S)
    → ((s : S) → P s → P (f s))
    → Preserves P (λ s. ret a (f s))
set-Preserves P a f keep s b t p e = ret-Preserves P a (f s) b t (keep s p) e

pub abort-Preserves : {S A : Type 0} (P : S → Type 0) → Preserves {A = A} P (λ s. abort)
abort-Preserves P s a t p e = cc

pub choose-Preserves :
    {S A : Type 0} (P : S → Type 0) (x : Bool) (m n : S → Ran S A)
    → Preserves P m
    → Preserves P n
    → Preserves P (if x then m else n)
choose-Preserves P true m n hm hn = hm
choose-Preserves P false m n hm hn = hn

pub exits-Preserves : {S A : Type 0} (P : S → Type 0) (n : ℕ) → Preserves {A = A} P (λ _. exits n)
exits-Preserves P n s a t p e = cc

pub if-ret :
    {S A : Type 0} {C : Type 0} {a : A} {t : S} (x : Bool) {r q : Ran S A}
    → (r ≡ ret a t → C)
    → (q ≡ ret a t → C)
    → (if x then r else q) ≡ ret a t
    → C
if-ret true f g = f
if-ret false f g = g

-- A call that never ends the process.
abbrev pub NeverExits : {S A : Type 0} → (S → Ran S A) → Type 0
NeverExits {S} m = (s : S) (n : ℕ) → ¬ (m s ≡ exits n)

pub ret≢exits : {S A : Type 0} (a : A) (s : S) (n : ℕ) → ¬ (ret a s ≡ exits n)
ret≢exits a s n e = cc

pub >>=-NeverExits :
    {S A B : Type 0} (m : S → Ran S A) (f : A → S → Ran S B)
    → NeverExits m
    → ((a : A) → NeverExits (f a))
    → NeverExits (m >>= f)
>>=-NeverExits {S} {A} {B} m f hm hf s n e = go (m s) refl e
  where
    go :
        (x : Ran S A)
        → m s ≡ x
        → (elim x [ ret a t ↦ f a t | abort ↦ abort | exits n ↦ exits n ]) ≡ exits n
        → ⊥
    go (ret a t) p k = hf a t n k
    go abort p k = cc
    go (exits i) p k = hm s i p

pub within-NeverExits :
    {S T A : Type 0} (get : T → S) (put : S → T → T) (m : S → Ran S A)
    → NeverExits m
    → NeverExits (within get put m)
unfolding within
within-NeverExits {S} {T} {A} get put m hm t n e = go (m (get t)) refl e
  where
    go :
        (x : Ran S A)
        → m (get t) ≡ x
        → (elim x [ ret a s ↦ ret a (put s t) | abort ↦ abort | exits n ↦ exits n ]) ≡ exits n
        → ⊥
    go (ret a s) p k = cc
    go abort p k = cc
    go (exits i) p k = hm (get t) i p

pub if-exits :
    {S A : Type 0} {n : ℕ} (x : Bool) {r q : Ran S A}
    → ¬ (r ≡ exits n)
    → ¬ (q ≡ exits n)
    → ¬ ((if x then r else q) ≡ exits n)
if-exits true f g = f
if-exits false f g = g

-- The two ways that a sequence goes on.
pub >>=-ret :
    {S A B : Type 0} (m : S → Ran S A) (f : A → S → Ran S B) (s : S) {a : A} {t : S}
    → m s ≡ ret a t
    → (m >>= f) s ≡ f a t
>>=-ret m f s e = ap (λ r. elim r [ ret a t ↦ f a t | abort ↦ abort | exits n ↦ exits n ]) e

pub >>=-abort :
    {S A B : Type 0} (m : S → Ran S A) (f : A → S → Ran S B) (s : S)
    → m s ≡ abort
    → (m >>= f) s ≡ abort
>>=-abort m f s e = ap (λ r. elim r [ ret a t ↦ f a t | abort ↦ abort | exits n ↦ exits n ]) e

pub within-cases :
    {S T A : Type 0} (get : T → S) (put : S → T → T) (m : S → Ran S A) (t : T)
    → NeverExits m
    → (within get put m t ≡ abort) ⊎ ((a : A) × (s : S) × (within get put m t ≡ ret a (put s t)))
unfolding within
within-cases {S} {T} {A} get put m t alive = go (m (get t)) refl
  where
    go :
        (r : Ran S A)
        → m (get t) ≡ r
        → (within get put m t ≡ abort)
          ⊎ ((a : A) × (s : S) × (within get put m t ≡ ret a (put s t)))
    go (ret a s) e = inr (a, s, rw (within, e))
    go abort e = inl (rw (within, e))
    go (exits n) e = absurd (alive (get t) n e)

pub ret-inj : {S A : Type 0} {a b : A} {s t : S} → ret a s ≡ ret b t → t ≡ s
ret-inj {S} {A} {a} {b} {s} {t} e = ret-Preserves (λ u. u ≡ s) a s b t refl e

-- Inversion of a call on a component that comes back.
pub within-inv :
    {S T A : Type 0} (get : T → S) (put : S → T → T) (m : S → Ran S A) (t : T) {a : A} {u : T}
    → within get put m t ≡ ret a u
    → (b : A) × (s : S) × (m (get t) ≡ ret b s) × (u ≡ put s t)
unfolding within
within-inv {S} {T} {A} get put m t {a} {u} h = go (m (get t)) refl h
  where
    go :
        (x : Ran S A)
        → m (get t) ≡ x
        → (elim x [ ret a s ↦ ret a (put s t) | abort ↦ abort | exits n ↦ exits n ]) ≡ ret a u
        → (b : A) × (s : S) × (m (get t) ≡ ret b s) × (u ≡ put s t)
    go (ret b s) k e = (b, s, k, ret-inj e)
    go abort k e = cc
    go (exits n) k e = cc

pub within-ret :
    {S T A : Type 0} (get : T → S) (put : S → T → T) (m : S → Ran S A) (t : T) {a : A} {s : S}
    → m (get t) ≡ ret a s
    → within get put m t ≡ ret a (put s t)
unfolding within
within-ret get put m t e =
    ap (λ r. elim r [ ret a s ↦ ret a (put s t) | abort ↦ abort | exits n ↦ exits n ]) e
