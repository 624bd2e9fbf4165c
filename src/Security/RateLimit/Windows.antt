-- ===== src/Security/RateLimit/Windows.antt =====
-- The seconds of a window.
use native.Mathlib.Nat.{div-mul-le_self, lt-div-mul-add}
use enterprise_doc_rag.Common.{ℕ, ◌+◌, ◌*◌, ◌/◌, ◌≤◌, ◌<◌, ◌≡◌, ◌⊎◌, arith, dec_lt}
use enterprise_doc_rag.Security.RateLimit.{seconds}

window_start : (q w : ℕ) → q / w * w ≤ q
window_start q w = grind arith

pub before_end : (now w : ℕ) → 0 < w → now < (seconds now / w + 1) * w * 1000
before_end now w h = grind arith

pub after_start : (now w : ℕ) → (seconds now / w + 1) * w * 1000 ≤ now + w * 1000
after_start now w = grind (arith, window_start (seconds now) w)

mul_step : (x y w : ℕ) → x < y → x * w + w ≤ y * w
mul_step x y w h = grind arith

pub window_of_span : (a t w : ℕ) → 0 < w → a ≤ t → t < a + w → (t / w ≡ a / w) ⊎ (t / w ≡ a / w + 1)
window_of_span a t w pos low high =
    let below_t : t < t / w * w + w = lt-div-mul-add pos in
    let below_a : a < a / w * w + w = lt-div-mul-add pos in
    elim (dec_lt (t / w) (a / w)) [
      | yes p ↦ absurd (omega (arith, mul_step (t / w) (a / w) w p, div-mul-le_self a w))
      | no p ↦ elim (dec_lt (a / w + 1) (t / w)) [
        | yes q ↦ absurd (omega (arith, mul_step (a / w + 1) (t / w) w q, div-mul-le_self t w))
        | no q ↦ omega arith
      ]
    ]
