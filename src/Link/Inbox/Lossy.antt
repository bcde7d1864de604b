-- ===== src/Link/Inbox/Lossy.antt =====
-- The text that src/transport.rs makes of octets from outside, where they are a text already.
use tcpform_protocol_lab.Base.{
  ℕ, ◌≡◌, refl, sym, List, [], ◌∷◌, ◌++◌, append_assoc, append-nil, true, Bool-cases, Option-cases,
  inl, inr, leb,
}
use tcpform_protocol_lab.Wire.Values.{is_utf8, utf8_from, utf8_tail, Message}
use tcpform_protocol_lab.Link.Inbox.{lossy, lossy_from, raw_message}

lossy_from-utf8 :
    (ranges : List (ℕ × ℕ)) (held octets : List ℕ)
    → utf8_from ranges octets ≡ true
    → lossy_from ranges held octets ≡ held ++ octets
unfolding utf8_from lossy_from
lossy_from-utf8 [] held [] h = sym (append-nil held)
lossy_from-utf8 ((low, high) ∷ ranges) held [] h = absurd (cc)
lossy_from-utf8 [] held (b ∷ bs) h = elim (Option-cases (utf8_tail b)) [
  | inl e ↦ absurd (cc (rw (e, utf8_from) at h))
  | inr (ranges, e) ↦
      rw (e, lossy_from, lossy_from-utf8 ranges (b ∷ []) bs (rw (e, utf8_from) at h)) refl
]
lossy_from-utf8 ((low, high) ∷ ranges) held (b ∷ bs) h = elim (Bool-cases (leb low b)) [
  | inr e ↦ absurd (cc (rw (e, utf8_from) at h))
  | inl e ↦ elim (Bool-cases (leb b high)) [
    | inr f ↦ absurd (cc (rw (e, f, utf8_from) at h))
    | inl f ↦
        rw
          (e, f, lossy_from, lossy_from-utf8 ranges (held ++ b ∷ []) bs (rw (e, f, utf8_from) at h))
          (append_assoc held (b ∷ []) bs)
  ]
]

-- Octets that are valid UTF-8 are the payload that they stand for, unchanged.
pub payload-raw_message :
    (peer_role octets : List ℕ)
    → is_utf8 octets ≡ true
    → Message.payload (raw_message peer_role octets) ≡ octets
unfolding raw_message lossy is_utf8
payload-raw_message peer_role octets h = lossy_from-utf8 [] [] octets h
