-- ===== src/Go/Writer.antt =====
-- The ResponseWriter of net/http, and what a handler does with it.
use bunny_api_proxy.Base.{ℕ, ◌≤◌, String, ◌≡◌, Option, none, some}

-- On the writer's state; `sent` is the status that has gone out.
pub record ResponseWriter (W : Type 0) : Type 0 where
  pub write_header : ℕ → W → W
  pub write : String → W → W
  pub sent : W → Option ℕ

pub data Call : Type 0 where
  header : (status_code : ℕ) → Call
  body : String → Call

-- net/http's writers: the first final status is sent, 200 before a body where none was given, and it
-- stays.
pub record SendsFirst {W : Type 0} (ops : ResponseWriter W) : Type 0 where
  pub first_header :
      (status : ℕ) (w : W)
      → 200 ≤ status
      → ops.sent w ≡ none
      → ops.sent (ops.write_header status w) ≡ some status
  pub first_body : (b : String) (w : W) → ops.sent w ≡ none → ops.sent (ops.write b w) ≡ some 200
  pub later_header :
      (status before : ℕ) (w : W)
      → ops.sent w ≡ some before
      → ops.sent (ops.write_header status w) ≡ some before
  pub later_body :
      (b : String) (before : ℕ) (w : W)
      → ops.sent w ≡ some before
      → ops.sent (ops.write b w) ≡ some before

-- The statuses from 200 on are final.
abbrev pub IsFinal : Call → Type 0
IsFinal (header status) = 200 ≤ status
IsFinal (body b) = Unit

abbrev pub or_200 : Option ℕ → ℕ
or_200 none = 200
or_200 (some status) = status
