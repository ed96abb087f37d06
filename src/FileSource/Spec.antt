-- ===== src/FileSource/Spec.antt =====
-- What the loop of `FileDatagramSource::copy_to_buffer_queue` is to deliver, and the step from a
-- round to a run.
use dg_cat.Common.{
  concat, All-append, All, ℕ, ◌+◌, ◌*◌, ◌≤◌, ◌<◌, ◌≡◌, ◌≢◌, refl, sym, ap, ◌∙◌, List, [], ◌∷◌, ◌++◌,
  length, slice, ◌⊎◌, append_assoc,
}
use dg_cat.Wire.{prefix_len, be_value}
use dg_cat.Wire.Splits.{Splits, IsPartial}
use dg_cat.Queue.Commit.{Mmsghdr}
use dg_cat.Queue.Commit.Append.{IsMessage, payload}
use dg_cat.FileSource.{
  Reader, Round, again, commits, ends, forced, throws, overruns, at_eof, overrun, Outcome, go_on,
}
use dg_cat.FileSource.Parse.{payloads}

abbrev pub front : Reader → List ℕ
front r = slice r.buffer 0 r.n_read

pub record IsReader (slots : ℕ) (r : Reader) : Type 0 where
  pub inside : r.n_read ≤ length r.buffer
  pub least : prefix_len ≤ r.n_min
  pub bounded : length r.buffer ≤ 4 * slots
  pub needed : r.n_min ≤ 4 * slots
  pub room : (r.n_read < length r.buffer) ⊎ (r.n_read < r.n_min)
  pub part : IsPartial (front r)
  pub need :
      (r.n_min ≡ prefix_len)
      ⊎ ((prefix_len ≤ r.n_read) × (r.n_min ≡ be_value (front r) + prefix_len))

-- Every datagram with its prefix fits into `4 * slots` bytes, and so would the incomplete one.
abbrev pub IsShort : ℕ → List (List ℕ) → List ℕ → Type 0
IsShort slots [] rest = be_value rest + prefix_len ≤ 4 * slots
IsShort slots (p ∷ ps) rest = (length p + prefix_len ≤ 4 * slots) × IsShort slots ps rest

-- The buffer and the rest of the stream denote the datagrams `ps` and an incomplete rest.
pub record Ready (slots : ℕ) (r : Reader) (s : List ℕ) (ps : List (List ℕ)) (rest : List ℕ)
    : Type 0 where
  pub reader : IsReader slots r
  pub denotes : Splits (front r ++ s) ps rest
  pub short : IsShort slots ps rest
  pub ending : IsPartial rest

abbrev pub RoundGood : ℕ → Reader → List (List ℕ) → List ℕ → Round × List ℕ → Type 0
RoundGood slots r ps rest (again r', s) = Ready slots r' s ps rest
RoundGood slots r ps rest (commits ms r', s) =
    (qs : List (List ℕ)) × (ps ≡ payloads ms ++ qs) × All IsMessage ms × Ready slots r' s qs rest
RoundGood slots r ps rest (ends, s) = (ps ≡ []) × (front r ≡ rest)
RoundGood slots r ps rest (forced, s) = Unit
RoundGood slots r ps rest (throws, s) = Unit
RoundGood slots r ps rest (overruns, s) = ⊥

-- What is sent is the first of the datagrams `ps`; at the end of the stream it is all of them, and
-- what is left in the buffer is the incomplete rest.
pub record Delivers (ps : List (List ℕ)) (rest : List ℕ) (o : Outcome) : Type 0 where
  pub later : List (List ℕ)
  pub sent_first : payloads (concat o.batches) ++ later ≡ ps
  pub messages : All IsMessage (concat o.batches)
  pub in_bounds : o.stop ≢ overrun
  pub at_end : o.stop ≡ at_eof → (later ≡ []) × (o.left ≡ rest)

payloads-append : (ms ns : List Mmsghdr) → payloads (ms ++ ns) ≡ payloads ms ++ payloads ns
payloads-append [] ns = refl
payloads-append (m ∷ ms) ns = ap (λ x. payload m ∷ x) (payloads-append ms ns)

pub go_on-Delivers :
    (slots : ℕ) (later : Reader → List ℕ → Outcome) (r : Reader) (x : Round × List ℕ)
    (ps : List (List ℕ)) (rest : List ℕ)
    → RoundGood slots r ps rest x
    → ((r' : Reader) (s : List ℕ) (qs : List (List ℕ))
        → Ready slots r' s qs rest
        → Delivers qs rest (later r' s))
    → Delivers ps rest (go_on later r x)
unfolding go_on
go_on-Delivers slots later r (again r', s) ps rest g h = h r' s ps g
go_on-Delivers slots later r (commits ms r', s) ps rest (qs, eq, all, ready) h =
    let d = h r' s qs ready in
    record {
      later = d.later;
      sent_first =
          ap (λ x. x ++ d.later) (payloads-append ms (concat (later r' s).batches))
          ∙ append_assoc (payloads ms) (payloads (concat (later r' s).batches)) d.later
          ∙ ap (λ x. payloads ms ++ x) d.sent_first
          ∙ sym eq;
      messages = All-append IsMessage ms (concat (later r' s).batches) all d.messages;
      in_bounds = d.in_bounds;
      at_end = d.at_end;
    }
go_on-Delivers slots later r (ends, s) ps rest g h = record {
  later = [];
  sent_first = sym g.0;
  messages = tt;
  in_bounds = λ q. cc;
  at_end = λ q. (refl, g.1);
}
go_on-Delivers slots later r (forced, s) ps rest g h = record {
  later = ps;
  sent_first = refl;
  messages = tt;
  in_bounds = λ q. cc;
  at_end = λ q. cc;
}
go_on-Delivers slots later r (throws, s) ps rest g h = record {
  later = ps;
  sent_first = refl;
  messages = tt;
  in_bounds = λ q. cc;
  at_end = λ q. cc;
}
go_on-Delivers slots later r (overruns, s) ps rest g h = absurd g
