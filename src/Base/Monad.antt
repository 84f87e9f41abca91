-- ===== src/Base/Monad.antt =====
-- A call that reads and changes the world, and returns a value, a Go error, or panics.
use hci_controller_manager.Base.Text.{Str}
use mathlib.Core.Bool.{Bool, true, false}
use mathlib.Core.Option.{Option, none, some}
use mathlib.Core.Path.{◌≡◌, refl}
use mathlib.Core.Logic.{◌≢◌, ◌⊎◌, inl, inr}

-- The class of an API error, as `IsNotFound` and `IsAlreadyExists` read it.
pub data Reason : Type 0 where
  not_found already_exists other : Reason

-- A non-nil `error`.
pub record Err : Type 0 where
  pub reason : Reason
  pub message : Str

pub data Outcome (A : Type 0) : Type 0 where
  ok : A → Outcome A
  err : Err → Outcome A
  panic : Outcome A

abbrev pub is_not_found : Err → Bool
is_not_found e = elim e.reason [ Reason.not_found ↦ true | _ ↦ false ]

abbrev pub is_already_exists : Err → Bool
is_already_exists e = elim e.reason [ Reason.already_exists ↦ true | _ ↦ false ]

-- `fmt.Errorf` with a text and no wrapped API error.
abbrev pub errorf : Str → Err
errorf m = record { reason = Reason.other; message = m }

abbrev pub M : Type 0 → Type 0 → Type 0
M W A = W → Outcome A × W

module _ {W A : Type 0} where
  abbrev pub pure : A → M W A
  pure a w = (ok a, w)

  abbrev pub fail : Err → M W A
  fail e w = (err e, w)

  -- A nil dereference, an index out of range, a write to a nil map.
  abbrev pub crash : M W A
  crash w = (panic, w)

  abbrev pub gets : (W → A) → M W A
  gets f w = (ok (f w), w)

  -- `*p`
  abbrev pub deref : Option A → M W A
  deref none = crash
  deref (some a) = pure a

  abbrev pub of_outcome : Outcome A → M W A
  of_outcome o w = (o, w)

-- What follows a call, by its outcome.
abbrev pub cases : {W A B : Type 0} → Outcome A × W → (A → M W B) → (Err → M W B) → Outcome B × W
cases (ok a, w) then_do or_else = then_do a w
cases (err e, w) then_do or_else = or_else e w
cases (panic, w) then_do or_else = (panic, w)

-- `v, err := m; if err == nil { then_do } else { or_else }`
abbrev pub attempt : {W A B : Type 0} → M W A → (A → M W B) → (Err → M W B) → M W B
attempt m then_do or_else w = cases (m w) then_do or_else

infixl 5 ◌>>=◌ ◌>>◌
abbrev pub ◌>>=◌ : {W A B : Type 0} → M W A → (A → M W B) → M W B
◌>>=◌ m f w = cases (m w) f fail

abbrev pub ◌>>◌ : {W A B : Type 0} → M W A → M W B → M W B
◌>>◌ m k w = cases (m w) (λ _. k) fail

-- `if err := m; err != nil { return handler(err) }`
abbrev pub catch : {W A : Type 0} → M W A → (Err → M W A) → M W A
catch m handler w = cases (m w) pure handler

-- A call that was followed up to a result either succeeded or failed before that.
pub cases-ok :
    {W A B : Type 0} (o : Outcome A × W) {then_do : A → M W B} {or_else : Err → M W B} {b : B}
    {w : W}
    → cases o then_do or_else ≡ (ok b, w)
    → ((a : A) × (v : W) × (o ≡ (ok a, v)) × (then_do a v ≡ (ok b, w)))
      ⊎ ((e : Err) × (v : W) × (o ≡ (err e, v)) × (or_else e v ≡ (ok b, w)))
cases-ok (ok a, v) h = inl (a, v, refl, h)
cases-ok (err e, v) h = inr (e, v, refl, h)
cases-ok (panic, v) h = cc

-- A sequence that succeeds has succeeded at its first call and then at its second.
pub bind-ok :
    {W A B : Type 0} (o : Outcome A × W) {then_do : A → M W B} {b : B} {w : W}
    → cases o then_do fail ≡ (ok b, w)
    → (a : A) × (v : W) × (o ≡ (ok a, v)) × (then_do a v ≡ (ok b, w))
bind-ok (ok a, v) h = (a, v, refl, h)
bind-ok (err e, v) h = cc
bind-ok (panic, v) h = cc

pub deref-ok :
    {W A : Type 0} (o : Option A) {a : A} {w v : W} → deref o w ≡ (ok a, v) → (o ≡ some a) × (w ≡ v)
deref-ok none h = cc
deref-ok (some x) h = (cc, cc)

pub pure-ok : {W A : Type 0} {a b : A} {w v : W} → pure a w ≡ (ok b, v) → (a ≡ b) × (w ≡ v)
pure-ok h = (cc, cc)

cases-fail-ne-ok :
    {W A B : Type 0} (o : Outcome A × W) (e : Err) (b : B) (v : W)
    → cases o (λ _. fail e) fail ≢ (ok b, v)
cases-fail-ne-ok (ok a, u) e b v r = cc
cases-fail-ne-ok (err f, u) e b v r = cc
cases-fail-ne-ok (panic, u) e b v r = cc

pub bind_fail-ne-ok :
    {W A B : Type 0} (m : M W A) (e : Err) (b : B) (w v : W) → (m >> fail e) w ≢ (ok b, v)
bind_fail-ne-ok m e b w v = cases-fail-ne-ok (m w) e b v

pub Outcome-cases :
    {A : Type 0} (o : Outcome A) → ((a : A) × (o ≡ ok a)) ⊎ ((e : Err) × (o ≡ err e)) ⊎ (o ≡ panic)
Outcome-cases (ok a) = inl (a, refl)
Outcome-cases (err e) = inr (inl (e, refl))
Outcome-cases panic = inr (inr refl)

pub err-ne-ok : {W A : Type 0} {e : Err} {a : A} {w v : W} → fail e w ≢ (ok a, v)
err-ne-ok h = cc

pub panic-ne-ok : {W A : Type 0} {a : A} {w v : W} → crash w ≢ (ok a, v)
panic-ne-ok h = cc

cases-pure-ok :
    {W A B : Type 0} (o : Outcome A × W) {a b : B} {w : W}
    → cases o (λ _. pure a) fail ≡ (ok b, w)
    → b ≡ a
cases-pure-ok (ok x, u) h = cc
cases-pure-ok (err e, u) h = cc
cases-pure-ok (panic, u) h = cc

pub then_pure-ok :
    {W A B : Type 0} (m : M W A) (a b : B) (v w : W) → (m >> pure a) v ≡ (ok b, w) → b ≡ a
then_pure-ok m a b v w h = cases-pure-ok (m v) h
