-- ===== src/Ecowitt/Protocol/Frames.antt =====
-- Which bytes `send_command` of backend/app/protocol/ecowitt/protocol.py takes for a response.
use kanfei.Prelude.{
  take-append, ℕ, suc, ◌+◌, ◌-◌, ◌≡◌, refl, sym, ap, ap₂, ◌∙◌, ◌↔◌, true, false, Bool-cases, inl,
  inr, [], ◌∷◌, ◌++◌, length, take, ltb, ◌==◌, ==_iff, arith, length-append, length-take,
  append_assoc,
}
use kanfei.Bytes.{Bytes, byte_at}
use kanfei.Ecowitt.Protocol.{
  Failure, ok, ◌>>=◌, readexactly, calc_checksum, size_width, big_endian, is_header, checked_tail,
  read_tail, after_size, after_echo, after_header, read_response,
}
use kanfei.Ecowitt.Protocol.Reads.{
  byte_at-append, readexactly-append, readexactly-ok, bind-eq-ok, bind-ok, fail-ne-ok, ok-injective,
  last_byte,
}

-- A response: the header, the command's echo, the size, the payload, and the checksum of what follows the
-- header. The size counts all of these but the header.
pub record IsFrame (payload rest s : Bytes) : Type 0 where
  pub cmd : ℕ
  pub size_bytes : Bytes
  pub width : length size_bytes ≡ size_width cmd
  pub size : big_endian 0 size_bytes ≡ length payload + size_width cmd + 2
  pub laid_out :
      s
      ≡ 0xFF
        ∷ 0xFF
        ∷ cmd
        ∷ (size_bytes ++ (payload ++ calc_checksum (cmd ∷ (size_bytes ++ payload)) ∷ rest))

module _ (ending : Failure) (cmd : ℕ) (size_bytes : Bytes) where
  abbrev sum_of : Bytes → ℕ
  sum_of payload = calc_checksum (cmd ∷ (size_bytes ++ payload))

  checked_tail-ok :
      (r : ℕ) (tail s payload rest : Bytes)
      → length tail ≡ suc (r - 1)
      → checked_tail ending cmd size_bytes r tail s ≡ ok (payload, rest)
      → (length payload ≡ r - 1) × (tail ++ s ≡ payload ++ sum_of payload ∷ rest)
  checked_tail-ok r tail s payload rest e h =
      elim (Bool-cases (sum_of (take (r - 1) tail) == byte_at tail (r - 1))) [
        | inr bad ↦ absurd (fail-ne-ok (rw bad at h))
        | inl good ↦
            let both = ok-injective (rw good at h) in
            let sealed : byte_at tail (r - 1) ≡ sum_of payload =
              sym ((==_iff _ _).0 good) ∙ ap sum_of both.0 in
            (
              ap length (sym both.0) ∙ length-take (r - 1) tail ∙ omega (arith, e),
              ap₂ (λ (a b : Bytes). a ++ b) (last_byte tail (r - 1) e) both.1
                  ∙ append_assoc (take (r - 1) tail) (byte_at tail (r - 1) ∷ []) rest
                  ∙ ap₂ (λ (a : Bytes) (b : ℕ). a ++ b ∷ rest) both.0 sealed,
            )
      ]

  read_tail-ok :
      (r : ℕ) (s payload rest : Bytes)
      → read_tail ending cmd size_bytes r s ≡ ok (payload, rest)
      → (length payload + 1 ≡ r) × (s ≡ payload ++ sum_of payload ∷ rest)
  read_tail-ok r s payload rest h = elim (Bool-cases (ltb r 1)) [
    | inl small ↦ absurd (fail-ne-ok (rw small at h))
    | inr more ↦
        let (tail, s', got, checked) =
          bind-eq-ok (readexactly ending r) (checked_tail ending cmd size_bytes r) s payload rest
            (rw more at h) in
        let shape = readexactly-ok ending r s tail s' got in
        let found =
          checked_tail-ok r tail s' payload rest (ground (arith, more, shape.0)) checked in
        (ground (arith, more, found.0), shape.1 ∙ found.1)
  ]

  checked_tail-append :
      (r : ℕ) (payload rest : Bytes)
      → r - 1 ≡ length payload
      → checked_tail ending cmd size_bytes r (payload ++ sum_of payload ∷ []) rest
        ≡ ok (payload, rest)
  checked_tail-append r payload rest e =
      rw
        (
          e,
          take-append payload (sum_of payload ∷ []),
          byte_at-append payload (sum_of payload),
          (==_iff (sum_of payload) (sum_of payload)).1 refl,
        )
        refl

  read_tail-append :
      (payload rest : Bytes)
      → read_tail ending cmd size_bytes (length payload + 1) (payload ++ sum_of payload ∷ rest)
        ≡ ok (payload, rest)
  read_tail-append payload rest =
      let r = length payload + 1 in
      let tail = payload ++ sum_of payload ∷ [] in
      let more : ltb r 1 ≡ false = ground arith in
      rw (more, ← (append_assoc payload (sum_of payload ∷ []) rest))
        (bind-ok (readexactly ending r) (checked_tail ending cmd size_bytes r) (tail ++ rest) tail
            rest
            (readexactly-append ending r tail rest (length-append payload (sum_of payload ∷ [])))
          ∙ checked_tail-append r payload rest (omega arith))

is_header-ok : (header : Bytes) → is_header header ≡ true → header ≡ 0xFF ∷ 0xFF ∷ []
is_header-ok [] h = cc
is_header-ok (a ∷ []) h = cc
is_header-ok (a ∷ b ∷ c ∷ bytes) h = cc
is_header-ok (a ∷ b ∷ []) h = ground (arith, h)

single : (xs : Bytes) → length xs ≡ 1 → xs ≡ byte_at xs 0 ∷ []
unfolding byte_at
single [] e = absurd (omega (arith, e))
single (x ∷ []) e = refl
single (x ∷ y ∷ xs) e = absurd (omega (arith, e))

module _ (ending : Failure) (cmd : ℕ) (size_bytes payload rest : Bytes) where
  abbrev sealed_payload : Bytes
  sealed_payload = payload ++ calc_checksum (cmd ∷ (size_bytes ++ payload)) ∷ rest

  size_read :
      big_endian 0 size_bytes ≡ length payload + size_width cmd + 2
      → after_size ending cmd size_bytes sealed_payload ≡ ok (payload, rest)
  size_read e =
      let left : big_endian 0 size_bytes - (size_width cmd + 1) ≡ length payload + 1 =
        omega (arith, e) in
      ap (λ (r : ℕ). read_tail ending cmd size_bytes r sealed_payload) left
      ∙ read_tail-append ending cmd size_bytes payload rest

  echo_read :
      after_echo ending (cmd ∷ []) (size_bytes ++ sealed_payload)
      ≡ (readexactly ending (size_width cmd) >>= after_size ending cmd)
          (size_bytes ++ sealed_payload)
  unfolding byte_at
  echo_read = refl

  frame_read :
      length size_bytes ≡ size_width cmd
      → big_endian 0 size_bytes ≡ length payload + size_width cmd + 2
      → read_response ending (0xFF ∷ 0xFF ∷ cmd ∷ (size_bytes ++ sealed_payload))
        ≡ ok (payload, rest)
  unfolding read_response
  frame_read width size =
      bind-ok (readexactly ending 2) (after_header ending)
        (0xFF ∷ 0xFF ∷ cmd ∷ (size_bytes ++ sealed_payload)) (0xFF ∷ 0xFF ∷ [])
        (cmd ∷ (size_bytes ++ sealed_payload))
        (readexactly-append ending 2 (0xFF ∷ 0xFF ∷ []) (cmd ∷ (size_bytes ++ sealed_payload)) refl)
      ∙ bind-ok (readexactly ending 1) (after_echo ending) (cmd ∷ (size_bytes ++ sealed_payload))
          (cmd ∷ []) (size_bytes ++ sealed_payload)
          (readexactly-append ending 1 (cmd ∷ []) (size_bytes ++ sealed_payload) refl)
      ∙ echo_read
      ∙ bind-ok (readexactly ending (size_width cmd)) (after_size ending cmd)
          (size_bytes ++ sealed_payload) size_bytes sealed_payload
          (readexactly-append ending (size_width cmd) size_bytes sealed_payload width)
      ∙ size_read size

module _ (ending : Failure) (s payload rest : Bytes) where
  -- Whatever the gateway sends: the payload of a response is read, and nothing after it, exactly when its
  -- bytes begin with a frame that has this payload, whose size and checksum are right. The echo of the
  -- command, which tells the width of the size, may be any.
  pub read_response_iff : (read_response ending s ≡ ok (payload, rest)) ↔ IsFrame payload rest s
  unfolding read_response
  read_response_iff = (sound, complete)
    where
      sound : read_response ending s ≡ ok (payload, rest) → IsFrame payload rest s
      sound h =
          let (header, s1, e1, h1) =
            bind-eq-ok (readexactly ending 2) (after_header ending) s payload rest h in
          elim (Bool-cases (is_header header)) [
            | inr bad ↦ absurd (fail-ne-ok (rw bad at h1))
            | inl good ↦
                let (echo, s2, e2, h2) =
                  bind-eq-ok (readexactly ending 1) (after_echo ending) s1 payload rest
                    (rw good at h1) in
                let cmd = byte_at echo 0 in
                let (size_bytes, s3, e3, h3) =
                  bind-eq-ok (readexactly ending (size_width cmd)) (after_size ending cmd) s2
                    payload rest h2 in
                let head = readexactly-ok ending 2 s header s1 e1 in
                let echoed = readexactly-ok ending 1 s1 echo s2 e2 in
                let sized = readexactly-ok ending (size_width cmd) s2 size_bytes s3 e3 in
                let found =
                  read_tail-ok ending cmd size_bytes
                    (big_endian 0 size_bytes - (size_width cmd + 1)) s3 payload rest h3 in
                record {
                  cmd = cmd;
                  size_bytes = size_bytes;
                  width = sized.0;
                  size = omega (arith, found.0);
                  laid_out =
                      head.1
                      ∙ ap₂ (λ (a b : Bytes). a ++ b) (is_header-ok header good)
                          (echoed.1
                            ∙ ap₂ (λ (a b : Bytes). a ++ b) (single echo echoed.0)
                                (sized.1 ∙ ap (λ (t : Bytes). size_bytes ++ t) found.1));
                }
          ]

      complete : IsFrame payload rest s → read_response ending s ≡ ok (payload, rest)
      complete f = rw f.laid_out (frame_read ending f.cmd f.size_bytes payload rest f.width f.size)
