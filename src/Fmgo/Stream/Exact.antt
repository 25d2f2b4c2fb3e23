-- ===== src/Fmgo/Stream/Exact.antt =====
-- `exact` reads the bytes that arrive, however the network cuts them into segments.
use firmingo.Common.{
  ℕ, suc, ◌+◌, ◌-◌, ◌≤◌, ◌<◌, ◌≡◌, ◌↔◌, refl, sym, ap, ◌∙◌, true, false, List, [], ◌∷◌, ◌++◌, ok,
  err, length, take, drop, leb, if◌then◌else◌, Bool-cases, inl, inr, arith, length-append,
  length-drop, take_all, drop_all, append_assoc, append-nil, take-append_eq, drop-append_eq,
  take-append_ge, drop-append_ge, take-append_le, drop-append_le,
}
use firmingo.Common.Bytes.{Bytes}
use firmingo.Fmgo.Stream.{
  Arrival, segment, closed, timed_out, Turn, ReadError, deadline_passed, disconnected, recv_timeout,
  exact_loop, exact,
}

-- An empty segment reads as the close.
abbrev pub join_segment : Bytes → Bytes → Bytes
join_segment [] rest = []
join_segment (b ∷ bs) rest = (b ∷ bs) ++ rest

join_segment_eq : (bs rest : Bytes) → 0 < length bs → join_segment bs rest ≡ bs ++ rest
join_segment_eq [] rest h = absurd (omega arith)
join_segment_eq (b ∷ bs) rest h = refl

-- The bytes that arrive before the deadline, up to the first turn that brings none.
unfoldable pub arriving : ℕ → List Turn → Bytes
arriving deadline [] = []
arriving deadline (turn ∷ turns) =
    let rest = arriving deadline turns in
    if leb deadline turn.now
    then []
    else elim turn.arrival [ closed ↦ [] | timed_out ↦ [] | segment bs ↦ join_segment bs rest ]

-- What the loop owes, once the bytes read so far and those that arrive are enough.
abbrev Reads : ℕ → ℕ → Bytes → List Turn → Type 0
Reads deadline count received turns =
    ((exact_loop deadline count received turns).0
      ≡ ok (take count (received ++ arriving deadline turns)))
    × (arriving deadline (exact_loop deadline count received turns).1
        ≡ drop count (received ++ arriving deadline turns))

module _ (deadline count : ℕ) where
  Reads-done :
      (received : Bytes) (turn : Turn) (turns : List Turn)
      → length received ≡ count
      → Reads deadline count received (turn ∷ turns)
  unfolding exact_loop
  Reads-done received turn turns h =
      let full : leb count (length received) ≡ true = ground arith in
      rw full (
        ap ok (sym (take-append_eq count received (arriving deadline (turn ∷ turns)) h)),
        sym (drop-append_eq count received (arriving deadline (turn ∷ turns)) h),
      )

  split_segment :
      (received bs : Bytes) (now : ℕ) (turns : List Turn)
      → length received ≤ count
      → count < length received + length bs
      → leb deadline now ≡ false
      → (received ++ take (count - length received) bs
          ≡ take count (received ++ (bs ++ arriving deadline turns)))
        × (arriving deadline
              (record { now = now; arrival = segment (drop (count - length received) bs) } ∷ turns)
            ≡ drop count (received ++ (bs ++ arriving deadline turns)))
  unfolding arriving
  split_segment received bs now turns h k early =
      let k' = count - length received in
      let rest = arriving deadline turns in
      (
        sym (
            take-append_ge count k' received (bs ++ rest) (omega arith)
            ∙ ap (λ t. received ++ t) (take-append_le k' bs rest (omega arith))),
        rw early (join_segment_eq (drop k' bs) rest (omega (arith, length-drop k' bs)))
            ∙ sym (
                drop-append_ge count k' received (bs ++ rest) (omega arith)
                ∙ drop-append_le k' bs rest (omega arith)),
      )

  -- One turn with bytes, with the loop's claim for the later turns at hand.
  Reads-segment :
      (received : Bytes) (b : ℕ) (bs : Bytes) (now : ℕ) (turns : List Turn)
      → length received < count
      → count ≤ length received + length ((b ∷ bs) ++ arriving deadline turns)
      → leb deadline now ≡ false
      → (length (received ++ (b ∷ bs)) ≤ count → Reads deadline count (received ++ (b ∷ bs)) turns)
      → Reads deadline count received (record { now = now; arrival = segment (b ∷ bs) } ∷ turns)
  unfolding exact_loop
  Reads-segment received b bs now turns h enough early later =
      let more : leb count (length received) ≡ false = ground arith in
      let all : arriving deadline (record { now = now; arrival = segment (b ∷ bs) } ∷ turns)
          ≡ (b ∷ bs) ++ arriving deadline turns =
        unfold arriving in rw early in
      elim (Bool-cases (leb (suc (length bs)) (count - length received))) [
        | inl fits ↦
            rw (more, early, fits, all)
              (rw (← append_assoc) (later (ground (arith, length-append received (b ∷ bs)))))
        | inr long ↦
            let (bytes, rest) =
              split_segment received (b ∷ bs) now turns (omega arith) (ground arith) early in
            rw (more, early, long, all) (ap ok bytes, rest)
      ]

  abbrev Late : Bytes → List Turn → Type 0
  Late received turns = (e : ReadError) × ((exact_loop deadline count received turns).0 ≡ err e)

  Late-segment :
      (received : Bytes) (b : ℕ) (bs : Bytes) (now : ℕ) (turns : List Turn)
      → length received + length ((b ∷ bs) ++ arriving deadline turns) < count
      → leb deadline now ≡ false
      → Late (received ++ (b ∷ bs)) turns
      → Late received (record { now = now; arrival = segment (b ∷ bs) } ∷ turns)
  unfolding exact_loop
  Late-segment received b bs now turns short early later =
      let more : leb count (length received) ≡ false = ground arith in
      let fits : leb (suc (length bs)) (count - length received) ≡ true =
        ground (arith, length-append bs (arriving deadline turns)) in
      rw (more, early, fits) later

  abbrev Cases : Bytes → List Turn → Type 0
  Cases received turns =
      (count ≤ length received + length (arriving deadline turns)
        → Reads deadline count received turns)
      × (length received + length (arriving deadline turns) < count → Late received turns)

  nothing_arrives :
      (received : Bytes) (turns : List Turn) (e : ReadError)
      → leb count (length received) ≡ false
      → arriving deadline turns ≡ []
      → (exact_loop deadline count received turns).0 ≡ err e
      → Cases received turns
  nothing_arrives received turns e more none_left failed =
      ((λ enough. absurd (ground (arith, ap length none_left))), λ _. (e, failed))

  on_arrival :
      (turns : List Turn) (received : Bytes) (now : ℕ) (a : Arrival)
      → leb count (length received) ≡ false
      → leb deadline now ≡ false
      → ((received' : Bytes) → length received' ≤ count → Cases received' turns)
      → Cases received (record { now = now; arrival = a } ∷ turns)
  unfolding exact_loop arriving
  on_arrival turns received now closed more early later =
      nothing_arrives received (record { now = now; arrival = closed } ∷ turns) disconnected more
        (rw early) (rw (more, early))
  on_arrival turns received now timed_out more early later =
      nothing_arrives received (record { now = now; arrival = timed_out } ∷ turns) recv_timeout more
        (rw early) (rw (more, early))
  on_arrival turns received now (segment []) more early later =
      nothing_arrives received (record { now = now; arrival = segment [] } ∷ turns) disconnected
        more (rw early) (rw (more, early))
  on_arrival turns received now (segment (b ∷ bs)) more early later =
      let all : arriving deadline (record { now = now; arrival = segment (b ∷ bs) } ∷ turns)
          ≡ (b ∷ bs) ++ arriving deadline turns =
        rw early in
      let same = length-append (b ∷ bs) (arriving deadline turns) in
      let joined = length-append received (b ∷ bs) in
      (
        (λ enough.
            Reads-segment received b bs now turns (ground (arith, more)) (rw all at enough) early
              (λ fits.
                (later (received ++ (b ∷ bs)) fits).0
                  (omega (arith, same, joined, ap length all)))),
        λ short. Late-segment received b bs now turns (rw all at short) early (
            (later (received ++ (b ∷ bs)) (omega (arith, same, joined, ap length all))).1
              (omega (arith, same, joined, ap length all))),
      )

  -- The two cases of the loop, by what arrives.
  loop-Cases :
      (turns : List Turn) (received : Bytes) → length received ≤ count → Cases received turns
  loop-Cases [] received h = elim (Bool-cases (leb count (length received))) [
    | inl full ↦
        let same : length received ≡ count = ground arith in
        (
          (λ _.
              unfold exact_loop arriving in
              rw (full, append-nil)
                (
                  ap ok (sym (take_all count received (omega arith))),
                  sym (drop_all count received (omega arith)),
                )),
          λ short. absurd (omega arith),
        )
    | inr more ↦
        nothing_arrives received [] recv_timeout more (unfold arriving in refl)
          (unfold exact_loop in rw more)
  ]
  loop-Cases (turn ∷ turns) received h = elim (Bool-cases (leb count (length received))) [
    | inl full ↦ (
      (λ _. Reads-done received turn turns (ground arith)),
      λ short. absurd (ground (arith, full)),
    )
    | inr more ↦ elim (Bool-cases (leb deadline turn.now)) [
      | inl late ↦
          nothing_arrives received (turn ∷ turns) deadline_passed more (unfold arriving in rw late)
            (unfold exact_loop in rw (more, late))
      | inr early ↦ on_arrival turns received turn.now turn.arrival more early (loop-Cases turns)
    ]
  ]

-- `exact` returns `bytes` exactly when `count` bytes arrive before the deadline and these are the first
-- `count` of them; what it leaves for later reads are then the bytes behind them.
pub exact_iff :
    (deadline count : ℕ) (turns : List Turn) (bytes : Bytes)
    → ((exact deadline count turns).0 ≡ ok bytes) ↔ (
        (count ≤ length (arriving deadline turns))
        × (bytes ≡ take count (arriving deadline turns))
        × (arriving deadline (exact deadline count turns).1 ≡ drop count (arriving deadline turns)))
unfolding exact
exact_iff deadline count turns bytes = (sound, λ h. complete h.0 h.1)
  where
    sound :
        (exact deadline count turns).0 ≡ ok bytes
        → (count ≤ length (arriving deadline turns))
          × (bytes ≡ take count (arriving deadline turns))
          × (arriving deadline (exact deadline count turns).1
              ≡ drop count (arriving deadline turns))
    sound h = elim (Bool-cases (leb count (length (arriving deadline turns)))) [
      | inl enough ↦
          let (read, left) = (loop-Cases deadline count turns [] (omega arith)).0 (ground arith) in
          (ground arith, cc, left)
      | inr short ↦
          let (e, failed) = (loop-Cases deadline count turns [] (omega arith)).1 (ground arith) in
          absurd (cc)
    ]

    complete :
        count ≤ length (arriving deadline turns)
        → bytes ≡ take count (arriving deadline turns)
        → (exact deadline count turns).0 ≡ ok bytes
    complete enough same =
        ((loop-Cases deadline count turns [] (omega arith)).0 (omega arith)).0 ∙ ap ok (sym same)

-- The half of it that needs no more than enough bytes.
pub exact_reads :
    (deadline count : ℕ) (turns : List Turn)
    → count ≤ length (arriving deadline turns)
    → ((exact deadline count turns).0 ≡ ok (take count (arriving deadline turns)))
      × (arriving deadline (exact deadline count turns).1 ≡ drop count (arriving deadline turns))
unfolding exact
exact_reads deadline count turns enough =
    (loop-Cases deadline count turns [] (omega arith)).0 (omega (arith, enough))
