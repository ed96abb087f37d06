-- ===== src/FileSource/Filled.antt =====
-- The loop of `FileDatagramSource::copy_to_buffer_queue` once a `read` has filled the buffer further.
use dg_cat.Common.{
  All, ℕ, ◌+◌, ◌-◌, ◌*◌, ◌≤◌, ◌<◌, ◌≡◌, refl, sym, ap, ◌∙◌, List, [], ◌∷◌, ◌++◌, arith, length,
  blit, inl, inr, subst, length-slice, length-append, ◌⊎◌, append_assoc, length-blit, ap₂,
}
use dg_cat.Wire.{Endian, prefix_len, be_value}
use dg_cat.Wire.Splits.{
  Splits, IsPartial, be_value-append, not-IsPartial, Splits-first, Splits-append,
}
use dg_cat.Timespec.{Timespec}
use dg_cat.Queue.Commit.{Mmsghdr}
use dg_cat.Queue.Commit.Append.{IsMessage, payload}
use dg_cat.FileSource.{Parsed, parse, Reader, after_commit, settle, on_parsed}
use dg_cat.FileSource.Parse.{payloads, held, Takes, parse-Takes}
use dg_cat.FileSource.Spec.{front, IsReader, IsShort, Ready, RoundGood}
use dg_cat.FileSource.Buffer.{be_value-front, front-blit, after_commit-Shifted}

-- What a denotation says of the first prefix, when it is there.
value_short :
    (slots : ℕ) (x s : List ℕ) (ps : List (List ℕ)) (rest : List ℕ)
    → Splits (x ++ s) ps rest
    → IsShort slots ps rest
    → prefix_len ≤ length x
    → be_value x + prefix_len ≤ 4 * slots
value_short slots x s [] rest d short four =
    omega (arith, short, ap be_value d, be_value-front x s four)
value_short slots x s (p ∷ ps) rest (pre, t, len, value, eq, later) short four = omega (
  arith,
  short.0,
  value,
  be_value-front x s four,
  ap be_value eq ∙ be_value-append pre (p ++ t) len,
)

-- The datagrams of a part read so far come first.
Splits-prefix :
    (qs ps : List (List ℕ)) (s u rest : List ℕ)
    → Splits s qs u
    → Splits s ps rest
    → IsPartial rest
    → (later : List (List ℕ)) × (ps ≡ qs ++ later) × Splits u later rest
Splits-prefix [] ps s u rest h k part = (ps, refl, subst (λ x. Splits x ps rest) h k)
Splits-prefix (q ∷ qs) [] s u rest (pre, t, four, value, eq, later) k part =
    absurd (not-IsPartial s q pre t four value eq (subst IsPartial (sym k) part))
Splits-prefix (q ∷ qs) (p ∷ ps) s u rest (pre, t, four, value, eq, later)
      (pre', t', four', value', eq', later') part =
    let same = Splits-first q p s pre t pre' t' four value eq four' value' eq' in
    let (more, split, ends_) =
      Splits-prefix qs ps t u rest later (subst (λ x. Splits x ps rest) (sym same.1) later') part in
    (more, ap₂ ◌∷◌ (sym same.0) split, ends_)

IsShort-drop :
    (slots : ℕ) (qs ps : List (List ℕ)) (rest : List ℕ)
    → IsShort slots (qs ++ ps) rest
    → IsShort slots ps rest
IsShort-drop slots [] ps rest h = h
IsShort-drop slots (q ∷ qs) ps rest h = IsShort-drop slots qs ps rest h.1

Splits-shorter :
    (p : List ℕ) (ps : List (List ℕ)) (s r : List ℕ) → Splits s (p ∷ ps) r → length r < length s
Splits-shorter p [] s r (pre, t, four, value, eq, later) =
    omega (arith, ap length eq, ap length later, length-append pre (p ++ t), length-append p t)
Splits-shorter p (q ∷ qs) s r (pre, t, four, value, eq, later) = omega (
  arith,
  ap length eq,
  Splits-shorter q qs t r later,
  length-append pre (p ++ t),
  length-append p t,
)

-- The state once the bytes are in the buffer.
abbrev pub filled : Reader → List ℕ → Reader
filled r bs = record r { buffer = blit r.buffer r.n_read bs; n_read = r.n_read + length bs }

module _ (e : Endian) (slots : ℕ) (r : Reader) (bs s : List ℕ) (ps : List (List ℕ)) (rest : List ℕ)
    (now : Timespec) (clock : ℕ) (v : IsReader slots r)
    (fits : r.n_read + length bs ≤ length r.buffer) (some_bytes : 0 < length bs)
    (denotes : Splits (front r ++ (bs ++ s)) ps rest) (short : IsShort slots ps rest)
    (ending : IsPartial rest) where
  front-filled : front (filled r bs) ≡ front r ++ bs
  front-filled = front-blit r.buffer r.n_read bs fits

  length-front : length (front r) ≡ r.n_read
  length-front = length-slice r.buffer 0 r.n_read (omega (arith, v.inside))

  length-front-filled : length (front (filled r bs)) ≡ r.n_read + length bs
  length-front-filled =
      omega (arith, ap length front-filled, length-append (front r) bs, length-front)

  denotes-filled : Splits (front (filled r bs) ++ s) ps rest
  denotes-filled =
      subst (λ x. Splits x ps rest)
        (sym (append_assoc (front r) bs s) ∙ ap (λ x. x ++ s) (sym front-filled)) denotes

  -- Too few bytes yet.
  pub filled-Ready : r.n_read + length bs < r.n_min → Ready slots (filled r bs) s ps rest
  filled-Ready low = record {
    reader = record {
      inside = omega (arith, length-blit r.buffer r.n_read bs);
      least = v.least;
      bounded = omega (arith, length-blit r.buffer r.n_read bs, v.bounded);
      needed = v.needed;
      room = inr low;
      part = partial v.need;
      need = needs v.need;
    };
    denotes = denotes-filled;
    short = short;
    ending = ending;
  }
    where
      value : prefix_len ≤ r.n_read → be_value (front (filled r bs)) ≡ be_value (front r)
      value four =
          ap be_value front-filled ∙ be_value-front (front r) bs (omega (arith, length-front))

      partial :
          (r.n_min ≡ prefix_len)
            ⊎ ((prefix_len ≤ r.n_read) × (r.n_min ≡ be_value (front r) + prefix_len))
          → IsPartial (front (filled r bs))
      partial (inl four) = inl (omega (arith, length-front-filled))
      partial (inr (four, need)) = inr (omega (arith, length-front-filled, value four))

      needs :
          (r.n_min ≡ prefix_len)
            ⊎ ((prefix_len ≤ r.n_read) × (r.n_min ≡ be_value (front r) + prefix_len))
          → (r.n_min ≡ prefix_len)
            ⊎ ((prefix_len ≤ r.n_read + length bs)
                × (r.n_min ≡ be_value (front (filled r bs)) + prefix_len))
      needs (inl four) = inl four
      needs (inr (four, need)) = inr (omega arith, omega (arith, value four))

  IsPartial-at :
      (next : ℕ)
      → next ≡ 0
      → IsPartial (held (filled r bs).buffer (filled r bs).n_read next)
      → IsPartial (front (filled r bs))
  IsPartial-at next zero_ part =
      let whole : (r.n_read + length bs) - 0 ≡ r.n_read + length bs = omega arith in
      rw whole at (rw zero_ at part)

  -- No whole datagram yet: the next round waits for one.
  wanting-Ready :
      (p : Parsed)
      → p.msgs ≡ []
      → Takes (filled r bs).buffer (filled r bs).n_read 0 p
      → r.n_min ≤ r.n_read + length bs
      → Ready slots (record (filled r bs) { n_min = p.pending + prefix_len }) s ps rest
  wanting-Ready p none_ t enough =
      let whole : (r.n_read + length bs) - 0 ≡ r.n_read + length bs = omega arith in
      let four : prefix_len ≤ r.n_read + length bs = omega (arith, v.least) in
      let first = t.none_yet none_ in
      let value : p.pending ≡ be_value (front (filled r bs)) =
        rw whole at (first.1 (omega arith)) in
      let part : IsPartial (front (filled r bs)) = IsPartial-at p.next first.0 t.rest_partial in
      let small =
        value_short slots (front (filled r bs)) s ps rest denotes-filled short
          (omega (arith, length-front-filled)) in
      record {
        reader = record {
          inside = omega (arith, length-blit r.buffer r.n_read bs);
          least = omega arith;
          bounded = omega (arith, length-blit r.buffer r.n_read bs, v.bounded);
          needed = omega (arith, small, value);
          room = inr (omega (arith, part, value, length-front-filled));
          part = part;
          need = inr (four, ap (λ k. k + prefix_len) value);
        };
        denotes = denotes-filled;
        short = short;
        ending = ending;
      }

  -- Whole datagrams: they are committed, and the rest of the bytes is moved to the front.
  committed-Ready :
      (p : Parsed) (m : Mmsghdr) (ms : List Mmsghdr)
      → p.msgs ≡ m ∷ ms
      → Takes (filled r bs).buffer (filled r bs).n_read 0 p
      → (qs : List (List ℕ)) × (ps ≡ payloads p.msgs ++ qs)
        × Ready slots (after_commit (filled r bs) p now clock) s qs rest
  committed-Ready p m ms some_ t =
      let n = r.n_read + length bs in
      let buffer' = blit r.buffer r.n_read bs in
      let whole : n - 0 ≡ n = omega arith in
      let taken : Splits (front (filled r bs)) (payloads p.msgs) (held buffer' n p.next) =
        rw whole at t.splits in
      let (qs, split, left) =
        Splits-prefix (payloads p.msgs) ps (front (filled r bs) ++ s) (held buffer' n p.next ++ s)
          rest (Splits-append (payloads p.msgs) _ _ s taken) denotes-filled ending in
      let shorter : length (held buffer' n p.next) < length (front (filled r bs)) =
        Splits-shorter (payload m) (payloads ms) _ _ (rw some_ at taken) in
      let (same, count, moved, four) =
        after_commit-Shifted (filled r bs) p now clock t.inside
          (omega (arith, length-blit r.buffer r.n_read bs)) in
      let len = length-blit r.buffer r.n_read bs in
      let sizes = length-slice buffer' p.next (n - p.next) (omega (arith, len, t.inside)) in
      (
        qs,
        split,
        record {
          reader = record {
            inside = omega (arith, same, count, len);
            least = omega (arith, four);
            bounded = omega (arith, same, len, v.bounded);
            needed = omega (arith, four, v.least, v.needed);
            room = inl (omega (arith, same, count, len, shorter, sizes, length-front-filled));
            part = rw moved t.rest_partial;
            need = inl four;
          };
          denotes = rw moved left;
          short = IsShort-drop slots (payloads p.msgs) qs rest (rw split at short);
          ending = ending;
        },
      )

  settle-RoundGood :
      (r0 : Reader) (p : Parsed) (ms : List Mmsghdr)
      → p.msgs ≡ ms
      → Takes (filled r bs).buffer (filled r bs).n_read 0 p
      → r.n_min ≤ r.n_read + length bs
      → RoundGood slots r0 ps rest (settle (filled r bs) now clock p ms, s)
  unfolding settle
  settle-RoundGood r0 p [] eq t enough = wanting-Ready p eq t enough
  settle-RoundGood r0 p (m ∷ ms) eq t enough =
      let (qs, split, ready) = committed-Ready p m ms eq t in
      (qs, split ∙ ap (λ x. payloads x ++ qs) eq, subst (All IsMessage) eq t.messages, ready)

  pub parsed-RoundGood :
      (r0 : Reader)
      → r.n_min ≤ r.n_read + length bs
      → RoundGood slots r0 ps rest (
        on_parsed (filled r bs) now clock (
            parse e slots
              (r.n_read + length bs + 1)
              (filled r bs).buffer
              (r.n_read + length bs)
              0
              0),
        s,
      )
  unfolding on_parsed
  parsed-RoundGood r0 enough =
      let len = length-blit r.buffer r.n_read bs in
      let (p, ran, takes) =
        parse-Takes e slots (filled r bs).buffer (r.n_read + length bs) (omega (arith, len))
          (omega (arith, v.bounded)) (r.n_read + length bs + 1) 0 0 (omega arith) (omega arith)
          (omega arith) in
      rw ran (settle-RoundGood r0 p p.msgs refl takes enough)
