-- ===== src/Vantage/Hilows/Answered.antt =====
-- What `hilows` of backend/app/protocol/vantage/driver.py returns.
use kanfei.Prelude.{ℕ, Option, none, some, ltb, length, take, Bool-cases, inl, inr}
use kanfei.Bytes.{Bytes}
use kanfei.Floats.{Float}
use kanfei.Crc.{crc_validate}
use kanfei.Vantage.Link.{Port, wakeup, flush, send, receive, receive_byte, is_byte, ◌>>=◌, ◌>>◌}
use kanfei.Vantage.Link.Returns.{WhenOk, Anything, anything, when_ok-bind, after}
use kanfei.Vantage.Transfer.{ack}
use kanfei.Vantage.Hilows.{
  hilows_total_size, cmd_hilows, parse_hilows, after_block, after_hilows, hilows,
}

abbrev pub IsThere : {A : Type 0} → Option A → Type 0
IsThere none = ⊥
IsThere (some a) = Unit

module _ {F : Type 0} ⦃fl : Float F⦄ (rain_click_inches : F) where
  after_block-IsThere :
      (block : Bytes) (p : Port) → WhenOk IsThere (after_block rain_click_inches block p).0
  unfolding parse_hilows
  after_block-IsThere block p = elim (Bool-cases (ltb (length block) hilows_total_size)) [
    | inl e ↦ rw e tt
    | inr e ↦ rw e (elim (Bool-cases (crc_validate (take hilows_total_size block))) [
      | inl e' ↦ rw e' tt
      | inr e' ↦ rw e' tt
    ])
  ]

  after_hilows-IsThere :
      (answer : Option ℕ) (p : Port) → WhenOk IsThere (after_hilows rain_click_inches answer p).0
  after_hilows-IsThere answer p = elim (Bool-cases (is_byte ack answer)) [
    | inl e ↦ rw e (
        when_ok-bind Anything IsThere (receive hilows_total_size) (after_block rain_click_inches)
          (anything (receive hilows_total_size)) (λ block _. after_block-IsThere block) p)
    | inr e ↦ rw e tt
  ]

  -- Whatever comes over the line, `hilows` raises or returns the highs and lows: the None of its parser
  -- never leaves it, since it raises in each case in which the parser refuses.
  hilows-IsThere : (p : Port) → WhenOk IsThere (hilows rain_click_inches p).0
  unfolding hilows
  hilows-IsThere p =
      after IsThere (wakeup >> flush >> send cmd_hilows)
        (receive_byte >>= after_hilows rain_click_inches)
        (when_ok-bind Anything IsThere receive_byte (after_hilows rain_click_inches)
          (anything receive_byte) (λ answer _. after_hilows-IsThere answer))
        p
