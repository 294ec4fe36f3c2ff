-- ===== src/Decide/Quiet.antt =====
-- Stages of `decideCycle` that ask for no quote, and steps that keep that.
use new_bnbhack.Common.{
  ℕ, ◌≡◌, refl, Bool, true, false, Option, none, some, arith, Result, Error, ok, err,
}
use new_bnbhack.Common.Text.{Text}
use new_bnbhack.Session.{next_regular_open, search_days}
use new_bnbhack.Platform.{Platform}
use new_bnbhack.Decide.{
  CycleInput, Answer, quote, Flow, throws, answers, goes_on, ◌>>=◌, lift, answer_if, throw_if,
  due_stage, guardian_stage, settled_open, wait_for_open_if, window_stage,
}

-- an answer that asks for no quote
abbrev pub asks : Answer → Bool
asks (quote id s) = true
asks _ = false

-- A stage that asks for no quote.
abbrev pub IsQuiet {ℓ} : {A : Type ℓ} → Flow A → Type 0
IsQuiet (answers a) = asks a ≡ false
IsQuiet (throws e) = Unit
IsQuiet (goes_on x) = Unit

module _ {ℓ κ μ} {A : Type ℓ} {B : Type κ} {C : Type μ} where
  -- an answer comes from a step or from what follows it
  pub bind_answers :
      (m : Flow A) (f : A → Flow B) (a : Answer)
      → (m >>= f) ≡ answers a
      → (m ≡ answers a → C)
      → ((x : A) → m ≡ goes_on x → f x ≡ answers a → C)
      → C
  bind_answers (goes_on x) f a h k l = l x refl h
  bind_answers (answers b) f a h k l = k (ground arith)
  bind_answers (throws e) f a h k l = absurd (cc)

  -- a quiet step does not ask, so a question comes from what follows
  pub quiet_asks :
      (m : Flow A) (f : A → Flow B) (id s : Text)
      → IsQuiet m
      → (m >>= f) ≡ answers (quote id s)
      → ((x : A) → m ≡ goes_on x → f x ≡ answers (quote id s) → C)
      → C
  quiet_asks (goes_on x) f id s q h l = l x refl h
  quiet_asks (answers b) f id s q h l = absurd (ground arith)
  quiet_asks (throws e) f id s q h l = absurd (cc)

module _ {ℓ κ} {A : Type ℓ} {B : Type κ} where
  pub IsQuiet-bind :
      (m : Flow A) (f : A → Flow B) → IsQuiet m → ((x : A) → IsQuiet (f x)) → IsQuiet (m >>= f)
  IsQuiet-bind (goes_on x) f q k = k x
  IsQuiet-bind (answers a) f q k = q
  IsQuiet-bind (throws e) f q k = tt

pub IsQuiet-lift {ℓ} : {A : Type ℓ} (r : Result A) → IsQuiet (lift r)
IsQuiet-lift (ok a) = tt
IsQuiet-lift (err e) = tt

pub IsQuiet-answer_if : (test : Bool) (a : Answer) → asks a ≡ false → IsQuiet (answer_if test a)
IsQuiet-answer_if true a h = h
IsQuiet-answer_if false a h = tt

pub IsQuiet-throw_if : (test : Bool) (e : Error) → IsQuiet (throw_if test e)
IsQuiet-throw_if true e = tt
IsQuiet-throw_if false e = tt

pub settled_open-IsQuiet : (now : ℕ) → IsQuiet (settled_open now)
unfolding settled_open
settled_open-IsQuiet now =
    IsQuiet-bind (lift (next_regular_open now search_days)) _
      (IsQuiet-lift (next_regular_open now search_days)) λ _. tt

pub wait_for_open_if-IsQuiet :
    (test : Bool) (now : ℕ) (detail : Option Text) → IsQuiet (wait_for_open_if test now detail)
unfolding wait_for_open_if
wait_for_open_if-IsQuiet true now detail =
    IsQuiet-bind (settled_open now) _ (settled_open-IsQuiet now) λ _. refl
wait_for_open_if-IsQuiet false now detail = tt

pub due_stage-IsQuiet :
    {F : Type 0} (p : Platform F) (input : CycleInput) → IsQuiet (due_stage p input)
unfolding due_stage
due_stage-IsQuiet p input = ground arith

pub guardian_stage-IsQuiet : (block : Option Text) → IsQuiet (guardian_stage block)
unfolding guardian_stage
guardian_stage-IsQuiet none = tt
guardian_stage-IsQuiet (some rule) = refl

pub window_stage-IsQuiet : (input : CycleInput) → IsQuiet (window_stage input)
unfolding window_stage
window_stage-IsQuiet input =
    IsQuiet-bind (wait_for_open_if _ input.now none) _ (wait_for_open_if-IsQuiet _ input.now none)
      λ _. tt
