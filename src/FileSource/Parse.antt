-- ===== src/FileSource/Parse.antt =====
-- The inner loop of `FileDatagramSource::copy_to_buffer_queue` against the framing of Wire/Splits.
use dg_cat.Common.{
  All, ℕ, zero, suc, ◌+◌, ◌-◌, ◌*◌, ◌≤◌, ◌<◌, ◌≡◌, refl, sym, ap, ◌∙◌, List, [], ◌∷◌, ◌++◌, some,
  arith, length, drop, slice, map, inl, inr, length-slice, length-drop, ◌^◌, slice-add,
}
use dg_cat.Wire.{Endian, prefix_len, be_value}
use dg_cat.Wire.Splits.{Splits, IsPartial, be_value-append}
use dg_cat.Queue.Commit.{Mmsghdr}
use dg_cat.Queue.Commit.Append.{IsMessage, payload}
use native.Mathlib.Decide.{dec_lt, dec_le}
use dg_cat.FileSource.{Parsed, parse, no_flags}

abbrev pub payloads : List Mmsghdr → List (List ℕ)
payloads = map payload

-- The bytes of the buffer from `i` up to `n_read`.
abbrev pub held : List ℕ → ℕ → ℕ → List ℕ
held buffer n_read i = slice buffer i (n_read - i)

-- What the loop leaves when it starts at `i`.
pub record Takes (buffer : List ℕ) (n_read i : ℕ) (p : Parsed) : Type 0 where
  pub splits : Splits (held buffer n_read i) (payloads p.msgs) (held buffer n_read p.next)
  pub ahead : i ≤ p.next
  pub inside : p.next ≤ n_read
  pub rest_partial : IsPartial (held buffer n_read p.next)
  pub messages : All IsMessage p.msgs
  pub none_yet :
      p.msgs ≡ []
      → (p.next ≡ i) × (prefix_len ≤ n_read - i → p.pending ≡ be_value (held buffer n_read i))

be_value-lt : (bs : List ℕ) → be_value bs < 2 ^ 32
be_value-lt [] = omega arith
be_value-lt (a ∷ []) = omega arith
be_value-lt (a ∷ b ∷ []) = omega arith
be_value-lt (a ∷ b ∷ c ∷ []) = omega arith
be_value-lt (a ∷ b ∷ c ∷ d ∷ r) = omega arith

-- A round at a place where four bytes are left to read.
module _ (e : Endian) (buffer : List ℕ) (n_read i : ℕ) (fit : n_read ≤ length buffer)
    (four : i + prefix_len ≤ n_read) where
  abbrev nb_datagram : ℕ
  nb_datagram = e.ntohl (e.load (slice buffer i prefix_len))

  nb-eq : nb_datagram ≡ be_value (slice buffer i prefix_len)
  nb-eq = e.load_ntohl _ (length-slice buffer i prefix_len (omega arith))

  held_prefix :
      held buffer n_read i ≡ slice buffer i prefix_len ++ held buffer n_read (i + prefix_len)
  held_prefix =
      let split : n_read - i ≡ prefix_len + (n_read - (i + prefix_len)) = omega arith in
      ap (λ k. slice buffer i k) split
      ∙ slice-add buffer i prefix_len (n_read - (i + prefix_len)) (omega arith)

  value_held : be_value (held buffer n_read i) ≡ nb_datagram
  value_held =
      ap be_value held_prefix
      ∙ be_value-append _ _ (length-slice buffer i prefix_len (omega arith))
      ∙ sym nb-eq

  held_body :
      i + prefix_len + nb_datagram ≤ n_read
      → held buffer n_read (i + prefix_len)
        ≡ slice buffer (i + prefix_len) nb_datagram
          ++ held buffer n_read (i + prefix_len + nb_datagram)
  held_body whole =
      let nb = nb_datagram in
      let split : n_read - (i + prefix_len) ≡ nb + (n_read - (i + prefix_len + nb)) = omega arith in
      ap (λ k. slice buffer (i + prefix_len) k) split
      ∙ slice-add buffer (i + prefix_len) nb (n_read - (i + prefix_len + nb)) (omega arith)

module _ (e : Endian) (slots : ℕ) (buffer : List ℕ) (n_read : ℕ) (fit : n_read ≤ length buffer)
    (enough : n_read ≤ 4 * slots) where
  abbrev nb_at : ℕ → ℕ
  nb_at i = e.ntohl (e.load (slice buffer i prefix_len))

  message : ℕ → Mmsghdr
  message i = record {
    msg_len = nb_at i;
    msg_flags = no_flags;
    iov_base = drop (i + prefix_len) buffer;
  }

  Takes-end :
      (i : ℕ) → i ≡ n_read → Takes buffer n_read i (record { msgs = []; next = i; pending = 0 })
  Takes-end i end = record {
    splits = refl;
    ahead = omega arith;
    inside = omega arith;
    rest_partial = inl (omega (arith, length-slice buffer i (n_read - i)));
    messages = tt;
    none_yet = λ _. (refl, λ h. absurd (omega arith));
  }

  Takes-broken :
      (i : ℕ)
      → i < n_read
      → ¬ (i + prefix_len + nb_at i ≤ n_read)
      → Takes buffer n_read i (record { msgs = []; next = i; pending = nb_at i })
  Takes-broken i more broken = record {
    splits = refl;
    ahead = omega arith;
    inside = omega arith;
    rest_partial = elim (dec_le (i + prefix_len) n_read) [
      | no short ↦ inl (omega (arith, length-slice buffer i (n_read - i)))
      | yes four ↦
          inr (
            omega
              (arith, length-slice buffer i (n_read - i), value_held e buffer n_read i fit four))
    ];
    messages = tt;
    none_yet = λ _. (refl, λ h. sym (value_held e buffer n_read i fit (omega arith)));
  }

  Takes-more :
      (i : ℕ)
      → i + prefix_len + nb_at i ≤ n_read
      → (p : Parsed) → Takes buffer n_read (i + prefix_len + nb_at i) p
      → Takes buffer n_read i (record p { msgs = message i ∷ p.msgs })
  unfolding message
  Takes-more i whole p t =
      let four : i + prefix_len ≤ n_read = omega arith in
      let small = nb-eq e buffer n_read i fit four in
      record {
        splits = (
          slice buffer i prefix_len,
          held buffer n_read (i + prefix_len + nb_at i),
          length-slice buffer i prefix_len (omega arith),
          sym small ∙ sym (length-slice buffer (i + prefix_len) (nb_at i) (omega arith)),
          held_prefix e buffer n_read i fit four
              ∙ ap (λ x. slice buffer i prefix_len ++ x)
                  (held_body e buffer n_read i fit four whole),
          t.splits,
        );
        ahead = omega (arith, t.ahead);
        inside = t.inside;
        rest_partial = t.rest_partial;
        messages = (
          record {
            short = omega (arith, small, be_value-lt (slice buffer i prefix_len));
            backed = omega (arith, length-drop (i + prefix_len) buffer);
          },
          t.messages,
        );
        none_yet = λ h. cc;
      }

  -- With a slot for every four bytes the loop writes inside `_iovs`, ends before the fuel does, and
  -- takes exactly the whole frames.
  pub parse-Takes :
      (fuel i k : ℕ)
      → n_read - i < fuel
      → i ≤ n_read
      → 4 * k ≤ i
      → (p : Parsed) × (parse e slots fuel buffer n_read i k ≡ some p) × Takes buffer n_read i p
  unfolding parse message
  parse-Takes zero i k low inside few = absurd (omega arith)
  parse-Takes (suc fuel) i k low inside few =
      let nb = e.ntohl (e.load (slice buffer i prefix_len)) in
      elim (dec_lt i n_read) [
        | no end ↦
            (record { msgs = []; next = i; pending = 0 }, ground arith, Takes-end i (omega arith))
        | yes more ↦ elim (dec_le (i + prefix_len + nb) n_read) [
          | no broken ↦ (
            record { msgs = []; next = i; pending = nb },
            ground arith,
            Takes-broken i more broken,
          )
          | yes whole ↦
              let (p, ran, takes) =
                parse-Takes fuel (i + prefix_len + nb) (k + 1) (omega arith) whole (omega arith) in
              (
                record p { msgs = message i ∷ p.msgs },
                ground (arith, ran),
                Takes-more i whole p takes,
              )
        ]
      ]
