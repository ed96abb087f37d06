-- ===== src/UdpCopier/Invariant.antt =====
-- The invariant of the steps of a copy to a UDP socket (datagram_copier.hpp,
-- udp_datagram_destination.hpp): the queue holds whole frames.
use dg_cat.Common.{
  All, ℕ, ◌+◌, ◌≡◌, refl, sym, ap, ap₂, ◌∙◌, subst, true, false, List, [], ◌∷◌, ◌++◌, length,
  append_assoc, inl, inr, ◌⊎◌,
}
use dg_cat.Wire.{prefix_len}
use dg_cat.Wire.Splits.{encode, All32}
use dg_cat.Batch.{ConsumerBatch}
use dg_cat.Queue.{BufferQueue}
use dg_cat.Queue.Window.{contents, IsValid}
use dg_cat.Queue.Take.{batch_at}
use dg_cat.Queue.Commit.{Mmsghdr}
use dg_cat.Queue.Commit.Append.{IsMessage}
use dg_cat.Queue.Commit.Whole.{delivered, encode-append}
use dg_cat.Queue.Commit.Fitting.{IsFitting}
use dg_cat.Copier.{Producer}
use dg_cat.Copier.Invariant.{pending, ProducerOk}
use dg_cat.Copier.Lossless.{Complete}
use dg_cat.UdpDestination.Runs.{IsStraight}
use dg_cat.UdpCopier.{Sender, starting, holding, freeing, finished, broken, System}

abbrev pub tail : List (List ℕ) → List (List ℕ)
tail [] = []
tail (p ∷ ps) = ps

-- Of the datagrams in the queue, those that were not sent yet.
abbrev pub due : Sender → List (List ℕ) → List (List ℕ)
due starting ps = ps
due (holding b) ps = ps
due (freeing k) ps = tail ps
due finished ps = ps
due broken ps = ps

-- A batch of the frames that were in the queue when it was handed out, at least one.
abbrev pub Took : List (List ℕ) → BufferQueue → ConsumerBatch → Type 0
Took ps q b =
    (p : List ℕ) × (qs : List (List ℕ)) × (rest : List (List ℕ)) × (ps ≡ p ∷ (qs ++ rest))
    × (b ≡ batch_at q.max_n q.consumer_index (length (encode (p ∷ qs))))

-- An empty batch is handed out behind the end of file only; what is freed is the first frame.
abbrev pub SenderOk : List (List ℕ) → BufferQueue → Sender → Type 0
SenderOk ps q starting = Unit
SenderOk ps q (holding b) = ((b.n ≡ 0) × (q.is_eof ≡ true) × (ps ≡ [])) ⊎ Took ps q b
SenderOk ps q (freeing k) =
    (p : List ℕ) × (rest : List (List ℕ)) × (ps ≡ p ∷ rest) × (k ≡ length p + prefix_len)
SenderOk ps q finished = (q.is_eof ≡ true) × (ps ≡ [])
SenderOk ps q broken = Unit

pub record Inv (cap : ℕ) (all : List Mmsghdr) (s : System) : Type 0 where
  pub valid : IsValid s.queue
  pub messages : All IsMessage (pending s.producer)
  pub producer_ok : ProducerOk s.queue s.producer
  pub capacity : s.queue.max_n ≡ cap
  pub asked : s.n_min ≡ prefix_len
  pub frames : List (List ℕ)
  pub held : contents s.queue ≡ encode frames
  pub small : All32 frames
  pub straight : IsStraight cap s.queue.consumer_index (frames ++ delivered (pending s.producer))
  pub sender_ok : SenderOk frames s.queue s.sender
  pub accounts : s.given ++ (due s.sender frames ++ delivered (pending s.producer)) ≡ delivered all
  -- where every message fits, nothing is left out but by force
  pub complete : All (IsFitting cap) all → (s.forced ≡ true) ⊎ Complete cap s.producer

due-append :
    (c : Sender) (q : BufferQueue) (ps ds : List (List ℕ))
    → SenderOk ps q c
    → due c (ps ++ ds) ≡ due c ps ++ ds
due-append starting q ps ds h = refl
due-append (holding b) q ps ds h = refl
due-append (freeing k) q [] ds (p, rest, eq, size) = cc
due-append (freeing k) q (x ∷ ps) ds h = refl
due-append finished q ps ds h = refl
due-append broken q ps ds h = refl

-- The sender's view outlasts what the producer adds.
SenderOk-grown :
    (c : Sender) (q q' : BufferQueue) (ps ds : List (List ℕ))
    → SenderOk ps q c
    → q.is_eof ≡ false
    → q'.max_n ≡ q.max_n
    → q'.consumer_index ≡ q.consumer_index
    → SenderOk (ps ++ ds) q' c
SenderOk-grown starting q q' ps ds h open_ cap con = tt
SenderOk-grown (holding b) q q' ps ds (inl (none_, eof, empty)) open_ cap con = cc
SenderOk-grown (holding b) q q' ps ds (inr (p, qs, rest, eq, batch)) open_ cap con = inr (
  p,
  qs,
  rest ++ ds,
  ap (λ x. x ++ ds) eq ∙ ap (λ x. p ∷ x) (append_assoc qs rest ds),
  batch ∙ ap₂ (λ x y. batch_at x y (length (encode (p ∷ qs)))) (sym cap) (sym con),
)
SenderOk-grown (freeing k) q q' ps ds (p, rest, eq, size) open_ cap con =
    (p, rest ++ ds, ap (λ x. x ++ ds) eq, size)
SenderOk-grown finished q q' ps ds (eof, empty) open_ cap con = cc
SenderOk-grown broken q q' ps ds h open_ cap con = tt

pub All32-append : (ps qs : List (List ℕ)) → All32 ps → All32 qs → All32 (ps ++ qs)
All32-append [] qs h k = k
All32-append (p ∷ ps) qs h k = (h.0, All32-append ps qs h.1 k)

-- An addition of whole frames by the producer, while the queue is open.
pub grown-Inv :
    (cap : ℕ) (all : List Mmsghdr) (s : System) (q' : BufferQueue) (p' : Producer)
    (ds : List (List ℕ))
    → Inv cap all s
    → s.queue.is_eof ≡ false
    → IsValid q'
    → q'.max_n ≡ s.queue.max_n
    → q'.consumer_index ≡ s.queue.consumer_index
    → contents q' ≡ contents s.queue ++ encode ds
    → All32 ds
    → delivered (pending s.producer) ≡ ds ++ delivered (pending p')
    → All IsMessage (pending p')
    → ProducerOk q' p'
    → (All (IsFitting cap) all → (s.forced ≡ true) ⊎ Complete cap p')
    → Inv cap all (record s { queue = q'; producer = p' })
grown-Inv cap all s q' p' ds i open_ valid same con bytes small moved messages producer_ok
      complete =
    let later = delivered (pending p') in
    record {
      valid = valid;
      messages = messages;
      producer_ok = producer_ok;
      capacity = same ∙ i.capacity;
      asked = i.asked;
      frames = i.frames ++ ds;
      held = bytes ∙ ap (λ x. x ++ encode ds) i.held ∙ sym (encode-append i.frames ds);
      small = All32-append i.frames ds i.small small;
      straight =
          subst (λ x. IsStraight cap x ((i.frames ++ ds) ++ later)) (sym con)
            (subst (IsStraight cap s.queue.consumer_index)
              (ap (λ x. i.frames ++ x) moved ∙ sym (append_assoc i.frames ds later)) i.straight);
      sender_ok = SenderOk-grown s.sender s.queue q' i.frames ds i.sender_ok open_ same con;
      accounts =
          ap (λ x. s.given ++ x)
            (ap (λ x. x ++ later) (due-append s.sender s.queue i.frames ds i.sender_ok)
              ∙ append_assoc (due s.sender i.frames) ds later
              ∙ ap (λ x. due s.sender i.frames ++ x) (sym moved))
          ∙ i.accounts;
      complete = complete;
    }
