-- ===== src/Runtime/Owned.antt =====
-- Which descriptors a computation leaves open: rules for its steps.
use Prim.Native.String.{String}
use ghost_media.Base.{
  ℕ, ◌≡◌, refl, sym, ap, subst, ◌∙◌, Bool, true, false, Option, none, some, List, ◌∷◌,
  if◌then◌else◌, arith,
}
use ghost_media.Runtime.Process.{
  Request, LastError, Process, Kernel, M, continue, ◌>>=◌, give, call, own, open_call, set_error,
  set_last, forget, drop_held, last_errno, out_of_fuel,
}

-- What a call that opens a descriptor adds.
abbrev pub with_own : Option ℕ → List ℕ → List ℕ
with_own none x = x
with_own (some d) x = d ∷ x

forget-head : (d : ℕ) (x : List ℕ) → forget d (d ∷ x) ≡ x
unfolding forget
forget-head d x = ground arith

-- What a computation that starts with the descriptors `x` leaves, if it ends.
abbrev pub After : {S A : Type 0} → (A → List ℕ → Type 0) → Option (A × Process S) → Type 0
After P none = Unit {0}
After P (some out) = P out.0 (out.1).held

abbrev pub Leaves : {S A : Type 0} → M S A → List ℕ → (A → List ℕ → Type 0) → Type 0
Leaves {S = S} m x P = (p : Process S) → p.held ≡ x → After P (m p)

module _ {S A B : Type 0} where
  continue-After :
      (P : A → List ℕ → Type 0) (Q : B → List ℕ → Type 0) (o : Option (A × Process S))
      (k : A → M S B)
      → After P o
      → ((a : A) (y : List ℕ) → P a y → Leaves (k a) y Q)
      → After Q (continue o k)
  continue-After P Q none k h hk = tt
  continue-After P Q (some out) k h hk = hk out.0 (out.1).held h out.1 refl

  pub leaves-bind :
      (P : A → List ℕ → Type 0) (Q : B → List ℕ → Type 0) (m : M S A) (k : A → M S B) (x : List ℕ)
      → Leaves m x P
      → ((a : A) (y : List ℕ) → P a y → Leaves (k a) y Q)
      → Leaves (m >>= k) x Q
  leaves-bind P Q m k x hm hk p held = continue-After P Q (m p) k (hm p held) hk

module _ {S A B : Type 0} where
  -- A step to known descriptors, then the rest.
  pub leaves-then :
      (f : A → List ℕ) (Q : B → List ℕ → Type 0) (m : M S A) (k : A → M S B) (x : List ℕ)
      → Leaves m x (λ a y. y ≡ f a)
      → ((a : A) → Leaves (k a) (f a) Q)
      → Leaves (m >>= k) x Q
  leaves-then f Q m k x hm hk =
      leaves-bind (λ a y. y ≡ f a) Q m k x hm
        (λ a y e. subst (λ z. Leaves (k a) z Q) (sym e) (hk a))

module _ {S B : Type 0} where
  pub leaves-if :
      (Q : B → List ℕ → Type 0) (b : Bool) (m n : M S B) (x : List ℕ)
      → (b ≡ true → Leaves m x Q)
      → (b ≡ false → Leaves n x Q)
      → Leaves (if b then m else n) x Q
  leaves-if Q true m n x hm hn = hm refl
  leaves-if Q false m n x hm hn = hn refl

  pub leaves-bool :
      (Q : B → List ℕ → Type 0) (b : Bool) (m n : M S B) (x : List ℕ)
      → Leaves m x Q
      → Leaves n x Q
      → Leaves (elim b [ true ↦ m | false ↦ n ]) x Q
  leaves-bool Q true m n x hm hn = hm
  leaves-bool Q false m n x hm hn = hn

  pub leaves-option :
      (Q : B → List ℕ → Type 0) (o : Option ℕ) (m : M S B) (n : ℕ → M S B) (x : List ℕ)
      → Leaves m x Q
      → ((d : ℕ) → Leaves (n d) x Q)
      → Leaves (elim o [ none ↦ m | some d ↦ n d ]) x Q
  leaves-option Q none m n x hm hn = hm
  leaves-option Q (some d) m n x hm hn = hn d

  pub leaves-give :
      (P : B → List ℕ → Type 0) (a : B) (x : List ℕ) → P a x → Leaves {S = S} (give a) x P
  unfolding give
  leaves-give P a x h p held = subst (λ y. P a y) (sym held) h

module _ {S : Type 0} where
  -- A call opens and closes nothing.
  pub leaves-call :
      (kernel : Kernel S) (request : Request) (x : List ℕ)
      → Leaves (call kernel request) x (λ r y. y ≡ x)
  unfolding call
  leaves-call kernel request x p held = held

  pub leaves-set_error :
      (operation : String) (x : List ℕ) → Leaves {S = S} (set_error operation) x (λ u y. y ≡ x)
  unfolding set_error
  leaves-set_error operation x p held = held

  pub leaves-set_last : (e : LastError) (x : List ℕ) → Leaves {S = S} (set_last e) x (λ u y. y ≡ x)
  unfolding set_last
  leaves-set_last e x p held = held

  pub leaves-last_errno : (x : List ℕ) → Leaves {S = S} last_errno x (λ r y. y ≡ x)
  unfolding last_errno
  leaves-last_errno x p held = held

  pub leaves-out_of_fuel :
      {A : Type 0} (P : A → List ℕ → Type 0) (x : List ℕ) → Leaves {S = S} out_of_fuel x P
  unfolding out_of_fuel
  leaves-out_of_fuel P x p held = tt

  leaves-own : (o : Option ℕ) (x : List ℕ) → Leaves {S = S} (own o) x (λ r y. y ≡ with_own r x)
  unfolding own
  leaves-own none x p held = held
  leaves-own (some d) x p held = ap (◌∷◌ d) held

  pub leaves-open_call :
      (kernel : Kernel S) (request : Request) (x : List ℕ)
      → Leaves (open_call kernel request) x (λ r y. y ≡ with_own r x)
  unfolding open_call
  leaves-open_call kernel request x =
      leaves-then (λ r. x) (λ r y. y ≡ with_own r x) (call kernel request)
        (λ reply. own reply.result) x (leaves-call kernel request x)
        (λ reply. leaves-own reply.result x)

  pub leaves-drop_held : (d : ℕ) (x : List ℕ) → Leaves {S = S} (drop_held d) (d ∷ x) (λ u y. y ≡ x)
  unfolding drop_held
  leaves-drop_held d x p held = ap (λ y. forget d y) held ∙ forget-head d x

  -- A call that opens a descriptor, then a case for each answer.
  pub open-then :
      {B : Type 0} (Q : B → List ℕ → Type 0) (kernel : Kernel S) (request : Request) (m : M S B)
      (n : ℕ → M S B) (x : List ℕ)
      → Leaves m x Q
      → ((d : ℕ) → Leaves (n d) (d ∷ x) Q)
      → Leaves
          (open_call kernel request >>= λ (o : Option ℕ). elim o [ none ↦ m | some d ↦ n d ])
          x
          Q
  open-then Q kernel request m n x hm hn =
      leaves-then (λ o. with_own o x) Q (open_call kernel request) _ x
        (leaves-open_call kernel request x)
        (λ r. elim r as (λ o. Leaves (elim o [ none ↦ m | some d ↦ n d ]) (with_own o x) Q) [
          | none ↦ hm
          | some d ↦ hn d
        ])
