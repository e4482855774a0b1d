-- ===== src/Server/Batch/Bounds.antt =====
-- The size that the batch manager keeps stays between one block and the configured size.
use iotex_analyser.Base.{
  List, [], ◌∷◌, All, sym, ◌∙◌, subst, ℕ, ◌/◌, ◌^◌, ◌≤◌, ◌<◌, ◌≡◌, refl, arith,
}
use iotex_analyser.Server.Float.{scale_down-half}
use iotex_analyser.Server.Batch.{
  BatchSizeManager, min_batch_size, new_manager, on_success, on_failure,
}

pub record IsValid (m : BatchSizeManager) : Type 0 where
  pub lower : min_batch_size ≤ m.effective_size
  pub upper : m.effective_size ≤ m.max_size
  pub exact : m.max_size < 2 ^ 53

pub new_manager-IsValid : (n : ℕ) → 1 ≤ n → n < 2 ^ 53 → IsValid (new_manager n)
unfolding new_manager
new_manager-IsValid n l u = ground arith

pub on_success-IsValid : (m : BatchSizeManager) → IsValid m → IsValid (on_success m)
unfolding on_success
on_success-IsValid m v = ground arith

pub max_size-on_success : (m : BatchSizeManager) → (on_success m).max_size ≡ m.max_size
unfolding on_success
max_size-on_success m = ground arith

-- A failed fetch of `n` blocks leaves half of `n`, and one block at least.
pub on_failure_size :
    (n : ℕ) (m : BatchSizeManager)
    → n < 2 ^ 53
    → ((on_failure n m).0 ≡ (on_failure n m).1.effective_size)
      × (1 ≤ (on_failure n m).0)
      × (2 ≤ n → (on_failure n m).0 ≡ n / 2)
      × (n ≤ 1 → (on_failure n m).0 ≡ 1)
unfolding on_failure
on_failure_size n m h =
    let half = scale_down-half n h in
    (refl, ground (arith, half), λ l. ground (arith, half), λ l. ground (arith, half))

pub on_failure-IsValid :
    (n : ℕ) (m : BatchSizeManager) → n ≤ m.max_size → IsValid m → IsValid (on_failure n m).1
unfolding on_failure
on_failure-IsValid n m le v = ground (arith, scale_down-half n (omega arith))

pub max_size-on_failure : (n : ℕ) (m : BatchSizeManager) → (on_failure n m).1.max_size ≡ m.max_size
unfolding on_failure
max_size-on_failure n m = refl

-- What the runner tells the manager: a fetch went well, or one of `n` blocks was too large.
pub data Event : Type 0 where
  success : Event
  failure : ℕ → Event

abbrev pub after : Event → BatchSizeManager → BatchSizeManager
after success m = on_success m
after (failure n) m = (on_failure n m).1

abbrev pub after_all : List Event → BatchSizeManager → BatchSizeManager
after_all [] m = m
after_all (event ∷ events) m = after_all events (after event m)

-- A failed fetch asked for at most `max` blocks.
abbrev pub AtMost : ℕ → Event → Type 0
AtMost max success = Unit
AtMost max (failure n) = n ≤ max

after-IsValid :
    (event : Event) (m : BatchSizeManager)
    → AtMost m.max_size event
    → IsValid m
    → IsValid (after event m) × ((after event m).max_size ≡ m.max_size)
after-IsValid success m le v = (on_success-IsValid m v, max_size-on_success m)
after-IsValid (failure n) m le v = (on_failure-IsValid n m le v, max_size-on_failure n m)

after_all-IsValid :
    (max : ℕ) (events : List Event) (m : BatchSizeManager)
    → m.max_size ≡ max
    → All (AtMost max) events
    → IsValid m
    → IsValid (after_all events m) × ((after_all events m).max_size ≡ max)
after_all-IsValid max [] m e le v = (v, e)
after_all-IsValid max (event ∷ events) m e le v =
    let step = after-IsValid event m (subst (λ n. AtMost n event) (sym e) le.0) v in
    after_all-IsValid max events (after event m) (step.1 ∙ e) le.1 step.0

-- A batch size manager that starts with n blocks, 1 <= n < 2^53, keeps n as its maximum and a size
-- between 1 and n through any successes and any failed fetches of at most n blocks.
pub new_manager-after_all :
    (n : ℕ) (events : List Event)
    → 1 ≤ n
    → n < 2 ^ 53
    → All (AtMost n) events
    → IsValid (after_all events (new_manager n)) × ((after_all events (new_manager n)).max_size ≡ n)
new_manager-after_all n events l u le =
    after_all-IsValid n events (new_manager n) (unfold new_manager in refl) le
      (new_manager-IsValid n l u)
