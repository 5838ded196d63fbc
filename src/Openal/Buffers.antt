-- ===== src/Openal/Buffers.antt =====
-- The eight buffers of a stream: none is lost or used twice, and a packet is played or dropped whole.
use gumble.Prelude.{
  ℕ, zero, suc, ◌*◌, ◌≤◌, ◌≡◌, ◌∙◌, ◌⊎◌, refl, ap, sym, false, none, some, inl, inr, List, [], ◌∷◌,
  ◌++◌, All, length, take, drop, arith, ltb, append_assoc, append-nil, if_cases,
}
use mathlib.Core.List.{Perm, perm_middle}
use mathlib.Core.List.Perm
use gumble.Prelude.Int.{ℤ}
use gumble.Conn.{Bytes}
use gumble.Openal.{
  SourceOps, SourceLaws, raw_size, Player, split_last, reclaim, submit, queue_packet, play_packet,
  play_all, captured,
}
use gumble.Openal.Samples.{IsInt16, fill-fits, captured-fill}

take-drop : (n : ℕ) (xs : List ℕ) → take n xs ++ drop n xs ≡ xs
take-drop zero xs = refl
take-drop (suc n) [] = refl
take-drop (suc n) (x ∷ xs) = ap (◌∷◌ x) (take-drop n xs)

split_last_lem :
    (bs : List ℕ)
    → ((bs ≡ []) × (split_last bs ≡ none))
      ⊎ ((rest : List ℕ) × (b : ℕ) × (split_last bs ≡ some (rest, b)) × (bs ≡ rest ++ (b ∷ [])))
unfolding split_last
split_last_lem [] = inl (refl, refl)
split_last_lem (b ∷ bs) = elim (split_last_lem bs) [
  | inl (e, q) ↦ inr ([], b, rw (q, split_last), ap (◌∷◌ b) e)
  | inr (rest, l, q, e) ↦ inr (b ∷ rest, l, rw (q, split_last), ap (◌∷◌ b) e)
]

module _ {S : Type 0} (o : SourceOps S) (laws : SourceLaws o) where
  -- The names that the goroutine holds and those on the queue are the ones that it has allocated.
  pub record HasBuffers (names : List ℕ) (p : Player S) : Type 0 where
    pub all : Perm (p.empty_bufs ++ laws.queued p.source) names
    pub raw_length : length p.raw ≡ raw_size

  -- Reclaiming moves the front of the queue behind the names that are held.
  pub reclaim-kept :
      (p : Player S)
      → ((reclaim o p).empty_bufs ++ laws.queued (reclaim o p).source
          ≡ p.empty_bufs ++ laws.queued p.source)
        × ((reclaim o p).raw ≡ p.raw)
  unfolding reclaim
  reclaim-kept p =
      if_cases
        (λ (r : Player S).
          (r.empty_bufs ++ laws.queued r.source ≡ p.empty_bufs ++ laws.queued p.source)
          × (r.raw ≡ p.raw))
        (ltb 0 n) _ _
        (λ _.
          let (front, rest) = laws.unqueue_front n p.source (omega arith) in
          (
            rw (front, rest)
                (append_assoc p.empty_bufs _ _
                  ∙ ap (p.empty_bufs ++◌) (take-drop n (laws.queued p.source))),
            refl,
          ))
        (λ _. (refl, refl))
    where
      n : ℕ
      n = o.buffers_processed p.source

  submit-queued :
      (b : ℕ) (d : Bytes) (s : S) → laws.queued (submit o b d s) ≡ laws.queued s ++ (b ∷ [])
  unfolding submit
  submit-queued b d s =
      if_cases (λ s'. laws.queued s' ≡ laws.queued s ++ (b ∷ []))
        (o.is_playing (o.queue_buffer b (o.set_data b d s))) _ _ (λ _. on_queue)
        (λ _. laws.play_queued _ ∙ on_queue)
    where
      on_queue : laws.queued (o.queue_buffer b (o.set_data b d s)) ≡ laws.queued s ++ (b ∷ [])
      on_queue = laws.queue_back b _ ∙ ap (λ q. q ++ (b ∷ [])) (laws.set_data_queued b d s)

  submit-stored : (b : ℕ) (d : Bytes) (s : S) → laws.data_of (submit o b d s) b ≡ d
  unfolding submit
  submit-stored b d s =
      if_cases (λ s'. laws.data_of s' b ≡ d) (o.is_playing (o.queue_buffer b (o.set_data b d s))) _
        _ (λ _. stored) (λ _. ap (λ f. f b) (laws.play_stored _) ∙ stored)
    where
      stored : laws.data_of (o.queue_buffer b (o.set_data b d s)) b ≡ d
      stored = ap (λ f. f b) (laws.queue_stored b _) ∙ laws.set_data_stored b d s

  -- What becomes of a packet: it is dropped, where every buffer is on the queue, or the buffer `b` is
  -- moved from those that are held, or processed, to the end of the queue and holds the samples.
  pub data Played (xs : List ℤ) (p p' : Player S) : Type 0 where
    dropped :
        p'.empty_bufs ≡ []
        → laws.queued p'.source ≡ p.empty_bufs ++ laws.queued p.source
        → Played xs p p'
    queued :
        (b : ℕ) (q : List ℕ)
        → p'.empty_bufs ++ (b ∷ q) ≡ p.empty_bufs ++ laws.queued p.source
        → laws.queued p'.source ≡ q ++ (b ∷ [])
        → captured (length xs) (laws.data_of p'.source b) ≡ some xs
        → Played xs p p'

  -- Either way no buffer is lost.
  pub Played-HasBuffers :
      (names : List ℕ) (xs : List ℤ) (p p' : Player S)
      → Played xs p p'
      → length p'.raw ≡ raw_size
      → HasBuffers names p
      → HasBuffers names p'
  Played-HasBuffers names xs p p' (dropped e q) l h = record {
    all = rw (e, q) h.all;
    raw_length = l;
  }
  Played-HasBuffers names xs p p' (queued b q e f d) l h = record {
    all = rw f (Perm.trans (Perm.append_left p'.empty_bufs (moved b q)) (rw e h.all));
    raw_length = l;
  }
    where
      moved : (b : ℕ) (q : List ℕ) → Perm (q ++ (b ∷ [])) (b ∷ q)
      moved b q = rw (append-nil q) at (perm_middle {a = b} q [])

  queue_packet-Played :
      (xs : List ℤ) (p r : Player S)
      → r.empty_bufs ++ laws.queued r.source ≡ p.empty_bufs ++ laws.queued p.source
      → captured (length xs) (take (length xs * 2) r.raw) ≡ some xs
      → (p' : Player S) × (queue_packet o (length xs) r ≡ p') × Played xs p p' × (p'.raw ≡ r.raw)
  unfolding queue_packet
  queue_packet-Played xs p r kept held = elim (split_last_lem r.empty_bufs) [
    | inl (e, q) ↦ (r, rw (q, queue_packet), dropped e (rw e at kept), refl)
    | inr (rest, b, q, e) ↦
        let bytes = take (length xs * 2) r.raw in
        (
          record r { source = submit o b bytes r.source; empty_bufs = rest },
          rw (q, queue_packet),
          queued b (laws.queued r.source)
              (sym (append_assoc rest (b ∷ []) _)
                ∙ ap (λ l. l ++ laws.queued r.source) (sym e)
                ∙ kept)
              (submit-queued b bytes r.source)
              (ap (captured (length xs)) (submit-stored b bytes r.source) ∙ held),
          refl,
        )
  ]

  -- A packet of at most 2,880 samples, each an int16, is played or dropped whole: the goroutine does
  -- not panic, and the buffers that it has allocated stay accounted for.
  pub play_packet-Played :
      (names : List ℕ) (xs : List ℤ) (p : Player S)
      → HasBuffers names p
      → length xs ≤ 2880
      → All IsInt16 xs
      → (p' : Player S) × (play_packet o xs p ≡ some p') × Played xs p p' × HasBuffers names p'
  unfolding play_packet
  play_packet-Played names xs p h small range =
      let (raw, filled, l) = fill-fits xs p.raw (omega (arith, h.raw_length)) in
      let fits : ltb raw_size (length xs) ≡ false = ground arith in
      let (kept, same_raw) = reclaim-kept (record p { raw = raw }) in
      let (p', q, y, same) =
        queue_packet-Played xs p (reclaim o (record p { raw = raw })) kept
          (rw same_raw (captured-fill xs p.raw raw filled range)) in
      (
        p',
        rw (fits, filled, play_packet, q),
        y,
        Played-HasBuffers names xs p p' y (ap length (same ∙ same_raw) ∙ l ∙ h.raw_length) h,
      )

  -- So does a whole stream of such packets, from the start of the goroutine.
  pub play_all-HasBuffers :
      (names : List ℕ) (ps : List (ℕ × List ℤ)) (p : Player S)
      → HasBuffers names p
      → All (λ q. (length q.1 ≤ 2880) × All IsInt16 q.1) ps
      → (p' : Player S) × (play_all o ps p ≡ some p') × HasBuffers names p'
  unfolding play_all
  play_all-HasBuffers names [] p h g = (p, refl, h)
  play_all-HasBuffers names ((t, xs) ∷ ps) p h g =
      let later = record p { source = o.elapse t p.source } in
      let h' : HasBuffers names later = record {
        all = rw (laws.elapse_queued t p.source) h.all;
        raw_length = h.raw_length;
      } in
      let (p', e, _, i) = play_packet-Played names xs later h' g.0.0 g.0.1 in
      let (p'', e', i') = play_all-HasBuffers names ps p' i g.1 in (p'', rw (e, play_all, e'), i')
