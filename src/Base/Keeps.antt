-- ===== src/Base/Keeps.antt =====
-- Invariants of calls: one rule for each way to build a call.
use hci_controller_manager.Base.Equality.{if◌then◌else◌}
use hci_controller_manager.Base.Monad.{
  Err, Outcome, ok, err, panic, M, pure, fail, crash, gets, deref, of_outcome, cases, attempt,
  catch, ◌>>=◌, ◌>>◌,
}
use mathlib.Core.Bool.{Bool, true, false}
use mathlib.Core.Option.{Option, none, some}
use mathlib.Core.Path.{◌≡◌, refl}

-- What holds of the value of a call that succeeds.
abbrev pub Post : {A : Type 0} → (A → Type 0) → Outcome A → Type 0
Post Q (ok a) = Q a
Post Q (err e) = Unit
Post Q panic = Unit

-- `m` keeps `I`, whatever its outcome, and a value that it returns has `Q`.
pub record Keeps {W A : Type 0} (I : W → Type 0) (Q : A → Type 0) (m : M W A) : Type 0 where
  pub at : (w : W) → I w → I (m w).1 × Post Q (m w).0

-- No claim about the value
abbrev pub Any : {A : Type 0} → A → Type 0
Any a = Unit

Post-Any : {A : Type 0} (o : Outcome A) → Post Any o
Post-Any (ok a) = tt
Post-Any (err e) = tt
Post-Any panic = tt

Post-ok : {A : Type 0} {Q : A → Type 0} (o : Outcome A) → ((a : A) → o ≡ ok a → Q a) → Post Q o
Post-ok (ok a) q = q a refl
Post-ok (err e) q = tt
Post-ok panic q = tt

Post-call :
    {W A : Type 0} {Q : A → Type 0} (o : Outcome A × W)
    → ((a : A) (v : W) → o ≡ (ok a, v) → Q a)
    → Post Q o.0
Post-call (ok a, v) q = q a v refl
Post-call (err e, v) q = tt
Post-call (panic, v) q = tt

module _ {W A : Type 0} {I : W → Type 0} {Q : A → Type 0} where
  pub Keeps-pure : (a : A) → Q a → Keeps I Q (pure a)
  Keeps-pure a q = record { at = λ w i. (i, q) }

  pub Keeps-fail : (e : Err) → Keeps I Q (fail e)
  Keeps-fail e = record { at = λ w i. (i, tt) }

  pub Keeps-crash : Keeps I Q crash
  Keeps-crash = record { at = λ w i. (i, tt) }

  pub Keeps-gets : (f : W → A) → ((w : W) → Q (f w)) → Keeps I Q (gets f)
  Keeps-gets f q = record { at = λ w i. (i, q w) }

  pub Keeps-of_outcome : (o : Outcome A) → ((a : A) → o ≡ ok a → Q a) → Keeps I Q (of_outcome o)
  Keeps-of_outcome o q = record { at = λ w i. (i, Post-ok o q) }

  pub Keeps-deref : (o : Option A) → ((a : A) → o ≡ some a → Q a) → Keeps I Q (deref o)
  Keeps-deref none q = Keeps-crash
  Keeps-deref (some a) q = Keeps-pure a (q a refl)

  pub Keeps-if :
      (b : Bool) (m n : M W A)
      → (b ≡ true → Keeps I Q m)
      → (b ≡ false → Keeps I Q n)
      → Keeps I Q (if b then m else n)
  Keeps-if true m n km kn = km refl
  Keeps-if false m n km kn = kn refl

  -- What every value of a call has is added to what the call keeps.
  pub Keeps-value :
      {m : M W A} → Keeps I Any m → ((a : A) (w v : W) → m w ≡ (ok a, v) → Q a) → Keeps I Q m
  Keeps-value {m = m} k q = record { at = λ w i. ((k.at w i).0, Post-call (m w) (λ a v. q a w v)) }

  pub Keeps-Any : {m : M W A} → Keeps I Q m → Keeps I Any m
  Keeps-Any {m = m} k = record { at = λ w i. ((k.at w i).0, Post-Any (m w).0) }

module _ {W A B : Type 0} {I : W → Type 0} {Q : A → Type 0} {P : B → Type 0} where
  cases-Keeps :
      (o : Outcome A × W) (f : A → M W B) (g : Err → M W B)
      → I o.1 × Post Q o.0
      → ((a : A) → Q a → Keeps I P (f a))
      → ((e : Err) → Keeps I P (g e))
      → I (cases o f g).1 × Post P (cases o f g).0
  cases-Keeps (ok a, w) f g (i, q) kf kg = (kf a q).at w i
  cases-Keeps (err e, w) f g (i, q) kf kg = (kg e).at w i
  cases-Keeps (panic, w) f g (i, q) kf kg = (i, tt)

  pub Keeps-attempt :
      {m : M W A} {f : A → M W B} {g : Err → M W B}
      → Keeps I Q m
      → ((a : A) → Q a → Keeps I P (f a))
      → ((e : Err) → Keeps I P (g e))
      → Keeps I P (attempt m f g)
  Keeps-attempt {m = m} {f = f} {g = g} km kf kg = record {
    at = λ w i. cases-Keeps (m w) f g (km.at w i) kf kg;
  }

  pub Keeps-bind :
      {m : M W A} {f : A → M W B}
      → Keeps I Q m
      → ((a : A) → Q a → Keeps I P (f a))
      → Keeps I P (m >>= f)
  Keeps-bind km kf = Keeps-attempt km kf Keeps-fail

module _ {W A B : Type 0} {I : W → Type 0} {Q : A → Type 0} {P : B → Type 0} where
  pub Keeps-then : {m : M W A} {k : M W B} → Keeps I Q m → Keeps I P k → Keeps I P (m >> k)
  Keeps-then km kk = Keeps-bind km (λ _ _. kk)

module _ {W A : Type 0} {I : W → Type 0} {Q P : A → Type 0} where
  pub Keeps-catch :
      {m : M W A} {g : Err → M W A}
      → Keeps I Q m
      → ((a : A) → Q a → P a)
      → ((e : Err) → Keeps I P (g e))
      → Keeps I P (catch m g)
  Keeps-catch km q kg = Keeps-attempt km (λ a r. Keeps-pure a (q a r)) kg

-- The same rules without a claim about values; they drive `search`.
module _ {W A : Type 0} {I : W → Type 0} where
  pub Quiet-pure : (a : A) → Keeps I Any (pure a)
  Quiet-pure a = Keeps-pure a tt

  pub Quiet-gets : (f : W → A) → Keeps I Any (gets f)
  Quiet-gets f = Keeps-gets f (λ w. tt)

  pub Quiet-of_outcome : (o : Outcome A) → Keeps I Any (of_outcome o)
  Quiet-of_outcome o = Keeps-of_outcome o (λ a e. tt)

  pub Quiet-deref : (o : Option A) → Keeps I Any (deref o)
  Quiet-deref o = Keeps-deref o (λ a e. tt)

  pub Quiet-if :
      (b : Bool) (m n : M W A) → Keeps I Any m → Keeps I Any n → Keeps I Any (if b then m else n)
  Quiet-if b m n km kn = Keeps-if b m n (λ e. km) (λ e. kn)

  pub Quiet-catch :
      {m : M W A} {g : Err → M W A}
      → Keeps I Any m
      → ((e : Err) → Keeps I Any (g e))
      → Keeps I Any (catch m g)
  Quiet-catch km kg = Keeps-catch km (λ a q. tt) kg

module _ {W A B : Type 0} {I : W → Type 0} where
  pub Quiet-bind :
      {m : M W A} {f : A → M W B}
      → Keeps I Any m
      → ((a : A) → Keeps I Any (f a))
      → Keeps I Any (m >>= f)
  Quiet-bind km kf = Keeps-bind km (λ a q. kf a)

  pub Quiet-then : {m : M W A} {k : M W B} → Keeps I Any m → Keeps I Any k → Keeps I Any (m >> k)
  Quiet-then km kk = Keeps-then km kk

  pub Quiet-attempt :
      {m : M W A} {f : A → M W B} {g : Err → M W B}
      → Keeps I Any m
      → ((a : A) → Keeps I Any (f a))
      → ((e : Err) → Keeps I Any (g e))
      → Keeps I Any (attempt m f g)
  Quiet-attempt km kf kg = Keeps-attempt km (λ a q. kf a) kg

  pub Quiet-elim :
      (o : Option A) (m : M W B) (f : A → M W B)
      → Keeps I Any m
      → ((a : A) → Keeps I Any (f a))
      → Keeps I Any (elim o [ none ↦ m | some a ↦ f a ])
  Quiet-elim none m f km kf = km
  Quiet-elim (some a) m f km kf = kf a

pub ruleset quiet_rules = (
  Quiet-pure, Keeps-fail, Keeps-crash, Quiet-gets, Quiet-of_outcome, Quiet-deref, Quiet-if,
  Quiet-catch, Quiet-bind, Quiet-then, Quiet-attempt, Quiet-elim,
)
