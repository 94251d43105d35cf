-- ===== src/Vantage/Poll/Outcomes.antt =====
-- What `_poll_sync` of backend/app/protocol/vantage/driver.py returns.
use kanfei.Prelude.{
  ℕ, zero, suc, ◌≤◌, ◌<◌, ◌≡◌, refl, Bool, true, false, Option, none, some, Each, length, ltb,
  Bool-cases, Option-cases, inl, inr, if◌then◌else◌,
}
use kanfei.Bytes.{Bytes}
use kanfei.Floats.{Float}
use kanfei.Vantage.Loop.{LoopData, Loop2Data, parse_loop, parse_loop2}
use kanfei.Vantage.Loop.Packets.{IsPlausible, parse_loop-IsPlausible, solar-lt_loop2}
use kanfei.Vantage.Snapshot.{SensorSnapshot, loop_to_snapshot, override, from_loop2}
use kanfei.Vantage.Link.Returns.{WhenOk, when_ok-bind, after}
use kanfei.Vantage.Link.{Port, Outcome, ok, raised, Io, pure, ◌>>=◌, ◌>>◌, send, flush, wakeup}
use kanfei.Vantage.Transfer.{max_retries, expect_ack}
use kanfei.Vantage.Poll.{
  cmd_lps, cmd_loop, read_loop, read_loop2, poll_lps, poll_loop_only, poll_once, after_attempt,
  poll_attempts, poll_sync, loop_of, loop2_of,
}

module _ {F : Type 0} where
  pub record IsReading (s : SensorSnapshot F) : Type 0 where
    pub inside_humidity : Each (λ p. p ≤ 100) s.inside_humidity
    pub outside_humidity : Each (λ p. p ≤ 100) s.outside_humidity
    pub wind_direction : Each (λ d. d ≤ 360) s.wind_direction
    pub solar_radiation : Each (λ v. v < 0x7FFF) s.solar_radiation

abbrev IsSolarFine : Option Loop2Data → Type 0
IsSolarFine l = Each (λ v. v < 0x7FFF) (from_loop2 (λ d. d.solar_radiation) l)

loop2_of-IsSolarFine : (raw : Bytes) → IsSolarFine (loop2_of raw)
loop2_of-IsSolarFine raw = elim (Bool-cases (ltb (length raw) 99)) [
  | inl short ↦ rw short tt
  | inr long ↦ rw long (elim (Option-cases (parse_loop2 raw)) [
    | inl bad ↦ rw bad tt
    | inr (l, good) ↦ rw good (solar-lt_loop2 raw l good)
  ])
]

read_loop2-IsSolarFine : (p : Port) → WhenOk IsSolarFine (read_loop2 p).0
unfolding read_loop2
read_loop2-IsSolarFine p = loop2_of-IsSolarFine _

module _ (F : Type 0) ⦃fl : Float F⦄ where
  loop_of-IsPlausible : (raw : Bytes) (p : Port) → WhenOk IsPlausible (loop_of {F = F} raw p).0
  loop_of-IsPlausible raw p = elim (Bool-cases (ltb (length raw) 99)) [
    | inl short ↦ rw short tt
    | inr long ↦ rw long (elim (Option-cases (parse_loop {F = F} raw)) [
      | inl bad ↦ rw bad tt
      | inr (d, good) ↦ rw good (parse_loop-IsPlausible raw d good)
    ])
  ]

  read_loop-IsPlausible : (p : Port) → WhenOk IsPlausible (read_loop {F = F} p).0
  unfolding read_loop
  read_loop-IsPlausible p = loop_of-IsPlausible _ _

  override-lt :
      (new old : Option ℕ)
      → Each (λ v. v < 0x7FFF) new
      → Each (λ v. v < 0x7FFF) old
      → Each (λ v. v < 0x7FFF) (override new old)
  override-lt none old hn ho = ho
  override-lt (some v) old hn ho = hn

  snapshot-IsReading :
      (d : LoopData F) (l : Option Loop2Data) (click : F)
      → IsPlausible d
      → IsSolarFine l
      → IsReading (loop_to_snapshot d l click)
  unfolding loop_to_snapshot
  snapshot-IsReading d l click h hl = record {
    inside_humidity = h.inside_humidity;
    outside_humidity = h.outside_humidity;
    wind_direction = h.wind_direction;
    solar_radiation =
        override-lt (from_loop2 (λ x. x.solar_radiation) l) d.solar_radiation hl h.solar_radiation;
  }

  -- A command, its ACK, and then `reads`.
  commanded-IsReading :
      (command : Bytes) (reads : Io (SensorSnapshot F))
      → ((p : Port) → WhenOk IsReading (reads p).0)
      → (p : Port) → WhenOk IsReading ((flush >> (send command >> (expect_ack >> reads))) p).0
  commanded-IsReading command reads h =
      after IsReading flush (send command >> (expect_ack >> reads))
        (after IsReading (send command) (expect_ack >> reads) (after IsReading expect_ack reads h))

  poll_lps-IsReading : (click : F) (p : Port) → WhenOk IsReading (poll_lps click p).0
  unfolding poll_lps
  poll_lps-IsReading click =
      let merge : LoopData F → Option Loop2Data → Io (SensorSnapshot F) =
        λ d l. pure (loop_to_snapshot d l click) in
      let reads : Io (SensorSnapshot F) = read_loop >>= λ d. read_loop2 >>= merge d in
      commanded-IsReading cmd_lps reads (
        when_ok-bind IsPlausible IsReading read_loop (λ d. read_loop2 >>= merge d)
          read_loop-IsPlausible
          λ d h.
            when_ok-bind IsSolarFine IsReading read_loop2 (merge d) read_loop2-IsSolarFine
              λ l hl p. snapshot-IsReading d l click h hl)

  poll_loop_only-IsReading : (click : F) (p : Port) → WhenOk IsReading (poll_loop_only click p).0
  unfolding poll_loop_only
  poll_loop_only-IsReading click =
      let alone : LoopData F → Io (SensorSnapshot F) = λ d. pure (loop_to_snapshot d none click) in
      commanded-IsReading cmd_loop (read_loop >>= alone) (
        when_ok-bind IsPlausible IsReading read_loop alone read_loop-IsPlausible
          λ d h p. snapshot-IsReading d none click h tt)

  poll_once-IsReading :
      (click : F) (has_loop2 : Bool) (p : Port) → WhenOk IsReading (poll_once click has_loop2 p).0
  unfolding poll_once
  poll_once-IsReading click true =
      after IsReading wakeup (poll_lps click) (poll_lps-IsReading click)
  poll_once-IsReading click false =
      after IsReading wakeup (poll_loop_only click) (poll_loop_only-IsReading click)

  -- A run that returned nothing or a reading.
  abbrev Settles : Outcome (Option (SensorSnapshot F)) × Port → Type 0
  Settles r =
      (result : Option (SensorSnapshot F)) × (q : Port) × (r ≡ (ok result, q))
      × Each IsReading result

  either-Settles :
      (b : Bool) (r r' : Outcome (Option (SensorSnapshot F)) × Port)
      → Settles r
      → Settles r'
      → Settles (if b then r else r')
  either-Settles true r r' h h' = h
  either-Settles false r r' h h' = h'

  after_attempt-Settles :
      (click : F) (rest : Io (Option (SensorSnapshot F)))
      → ((q : Port) → Settles (rest q))
      → (o : Outcome (SensorSnapshot F)) (q : Port) → WhenOk IsReading o
      → Settles (after_attempt click rest (o, q))
  after_attempt-Settles click rest again (ok s) q h = (some s, q, refl, h)
  after_attempt-Settles click rest again (raised e) q h =
      either-Settles q.stop_requested _ _ (none, q, refl, tt) (unfold flush in again q)

  poll_attempts-Settles :
      (click : F) (has_loop2 : Bool) (n : ℕ) (p : Port)
      → Settles (poll_attempts click has_loop2 n p)
  unfolding poll_attempts
  poll_attempts-Settles click has_loop2 zero p = (none, p, refl, tt)
  poll_attempts-Settles click has_loop2 (suc n) p =
      let once = poll_once click has_loop2 p in
      either-Settles p.stop_requested (ok none, p)
        (after_attempt click (poll_attempts click has_loop2 n) once) (none, p, refl, tt)
        (after_attempt-Settles click (poll_attempts click has_loop2 n)
          (poll_attempts-Settles click has_loop2 n) once.0 once.1
          (poll_once-IsReading click has_loop2 p))

-- Whatever comes over the line and whenever a stop is requested, `_poll_sync` raises nothing: it
-- returns None or a snapshot with humidities of at most 100, a wind direction of at most 360 and a
-- solar radiation below the dashed value.
pub poll_sync-IsReading :
    {F : Type 0} ⦃fl : Float F⦄ (click : F) (has_loop2 : Bool) (p : Port)
    → (result : Option (SensorSnapshot F)) × (q : Port) × (poll_sync click has_loop2 p
        ≡ (ok result, q))
      × Each IsReading result
unfolding poll_sync
poll_sync-IsReading {F} click has_loop2 p = poll_attempts-Settles F click has_loop2 max_retries p
