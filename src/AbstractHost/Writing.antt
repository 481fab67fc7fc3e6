-- ===== src/AbstractHost/Writing.antt =====
-- `writeCallback` of daemon/src/abstract_host.cpp: no byte is lost or sent twice, and what comes of
-- a stale `errno` and of the `int` that holds the size.
use yonderboy.Prelude.{
  ℕ, zero, suc, ◌-◌, ◌^◌, ltb, ◌==◌, if◌then◌else◌, ◌≤◌, ◌<◌, Bool, false, List, [], ◌∷◌, ◌++◌, ◌≡◌,
  ◌≢◌, refl, sym, ap, subst, ◌∙◌, arith, Bytes, length, take, drop, append_assoc, append-nil,
  length-drop, Bool-cases, inl, inr,
}
use yonderboy.AbstractHost.{
  Host, SendAnswer, sent, refused, Errno, would_block, other, WriteEnd, drained, blocked, threw,
  unanswered, WriteState, send_size, piece, int_size, write_loop, write_callback, after_loop,
  finish_writing,
}

-- Where a round begins.
abbrev pub at_round : Bytes → ℕ → Bytes → Errno → WriteState
at_round buffer remaining wire errno = record {
  buffer = buffer;
  remaining = remaining;
  on_the_wire = wire;
  errno = errno;
}

abbrev pub given : Bytes → ℕ → Bytes
given buffer remaining = piece (at_round buffer remaining [] other)

-- `send` takes no more than it is given; `remaining` is the size that the loop counts.
abbrev pub HonestFrom : List SendAnswer → Bytes → ℕ → Type 0
HonestFrom [] buffer remaining = Unit
HonestFrom (sent n ∷ answers) buffer remaining =
    (n ≤ length (given buffer remaining)) × HonestFrom answers (drop n buffer) (remaining - n)
HonestFrom (refused e ∷ answers) buffer remaining = Unit

abbrev pub IsHonest : List SendAnswer → Bytes → Type 0
IsHonest answers buffer = HonestFrom answers buffer (int_size buffer)

abbrev start_state : Errno → Host → WriteState
start_state errno h = at_round h.send_buffer (int_size h.send_buffer) [] errno

-- Each answer of `send` takes at least a byte, and no more than it is given.
abbrev pub TakesSome : List SendAnswer → Bytes → Type 0
TakesSome [] buffer = Unit
TakesSome (sent n ∷ answers) buffer =
    (buffer ≢ [] → 0 < n) × (n ≤ length (take send_size buffer)) × TakesSome answers (drop n buffer)
TakesSome (refused e ∷ answers) buffer = ⊥

int_size_small : (s : Bytes) → length s < 2 ^ 31 → int_size s ≡ length s
unfolding int_size
int_size_small s h = ground arith

take_long : (n : ℕ) (s : Bytes) → length s ≤ n → take n s ≡ s
take_long zero [] h = refl
take_long zero (c ∷ s) h = absurd (omega arith)
take_long (suc n) [] h = refl
take_long (suc n) (c ∷ s) h = ap (◌∷◌ c) (take_long n s (omega arith))

-- Where the size is right, a round gives the first bytes.
piece_exact : (w : WriteState) → w.remaining ≡ length w.buffer → piece w ≡ take send_size w.buffer
unfolding piece
piece_exact w h = elim (Bool-cases (ltb send_size w.remaining)) [
  | inl e ↦ rw (piece, e) refl
  | inr e ↦
      rw (piece, e)
        (take_long w.remaining w.buffer (omega (arith, h))
          ∙ sym (take_long send_size w.buffer (ground arith)))
]

take-take-drop : (n k : ℕ) (s : Bytes) → n ≤ length (take k s) → take n (take k s) ++ drop n s ≡ s
take-take-drop zero k s h = refl
take-take-drop (suc n) zero s h = absurd (omega arith)
take-take-drop (suc n) (suc k) [] h = refl
take-take-drop (suc n) (suc k) (c ∷ s) h = ap (◌∷◌ c) (take-take-drop n k s (omega arith))

-- What has gone out and what is left make up what was to be sent, in order.
abbrev Sends : Bytes → WriteState → Type 0
Sends text w = w.on_the_wire ++ w.buffer ≡ text

write_loop-Sends :
    (answers : List SendAnswer) (text : Bytes) (w : WriteState)
    → w.errno ≡ other
    → HonestFrom answers w.buffer w.remaining
    → Sends text w
    → Sends text (write_loop answers w).1
unfolding write_loop piece
write_loop-Sends [] text w e h s = ground arith
write_loop-Sends (refused would_block ∷ answers) text w e h s = ground arith
write_loop-Sends (refused other ∷ answers) text w e h s = ground arith
write_loop-Sends (sent n ∷ answers) text w e h s =
    let gone = take n (piece w) in
    let w' = record w {
      on_the_wire = w.on_the_wire ++ gone;
      buffer = drop n w.buffer;
      remaining = w.remaining - n;
    } in
    let size = if ltb send_size w.remaining then send_size else w.remaining in
    let kept =
      append_assoc w.on_the_wire gone (drop n w.buffer)
      ∙ ap (◌++◌ w.on_the_wire) (take-take-drop n size w.buffer h.0)
      ∙ s in
    ground (arith, write_loop-Sends answers text w' e h.1 kept)

finish_writing-send_buffer :
    (answer : Bool) (h : Host) → (finish_writing answer h).0.send_buffer ≡ h.send_buffer
unfolding finish_writing
finish_writing-send_buffer answer h = ground arith

after_loop-Sends :
    (end : WriteEnd) (w : WriteState) (answer : Bool) (h : Host)
    → (after_loop end w answer h).wire ++ (after_loop end w answer h).host.send_buffer
      ≡ w.on_the_wire ++ h.send_buffer
unfolding after_loop
after_loop-Sends threw w answer h = refl
after_loop-Sends unanswered w answer h = refl
after_loop-Sends _ w answer h = ap (◌++◌ w.on_the_wire) (finish_writing-send_buffer answer h)

-- A call that starts with no stale EAGAIN puts the first bytes of the send buffer on the wire and
-- keeps the others, in order, whatever send answers, errors included, as long as it takes no more
-- than it is given.
pub write_callback-append :
    (answers : List SendAnswer) (answer : Bool) (h : Host)
    → IsHonest answers h.send_buffer
    → (write_callback answers answer other h).wire
        ++ (write_callback answers answer other h).host.send_buffer
      ≡ h.send_buffer
unfolding write_callback
write_callback-append answers answer h honest =
    let w = start_state other h in
    let (end, w') = write_loop answers w in
    after_loop-Sends end w' answer (record h { send_buffer = w'.buffer })
    ∙ write_loop-Sends answers h.send_buffer w refl honest refl

nil_of_length : (s : Bytes) → length s ≤ 0 → s ≡ []
nil_of_length [] h = refl
nil_of_length (c ∷ s) h = absurd (omega arith)

write_loop-drained :
    (answers : List SendAnswer) (w : WriteState)
    → w.errno ≡ other
    → w.remaining ≡ length w.buffer
    → TakesSome answers w.buffer
    → length w.buffer ≤ length answers
    → ((write_loop answers w).0 ≡ drained) × ((write_loop answers w).1.buffer ≡ [])
unfolding write_loop
write_loop-drained [] w e z t le = ground (arith, nil_of_length w.buffer)
write_loop-drained (refused e' ∷ answers) w e z t le = absurd t
write_loop-drained (sent n ∷ answers) w e z t le = elim (Bool-cases (w.remaining == 0)) [
  | inl q ↦ ground (arith, nil_of_length w.buffer)
  | inr q ↦
      let w' = record w {
        on_the_wire = w.on_the_wire ++ take n (piece w);
        buffer = drop n w.buffer;
        remaining = w.remaining - n;
      } in
      let fits = length-drop n w.buffer in
      let some_taken : 0 < n = t.0 (λ nil. absurd (let zero = ap length nil in ground arith)) in
      ground (arith, write_loop-drained answers w' e (omega arith) t.2 (omega arith))
]

TakesSome-IsHonest :
    (answers : List SendAnswer) (buffer : Bytes) (remaining : ℕ)
    → remaining ≡ length buffer
    → TakesSome answers buffer
    → HonestFrom answers buffer remaining
TakesSome-IsHonest [] buffer remaining z t = tt
TakesSome-IsHonest (sent n ∷ answers) buffer remaining z t =
    let fits = length-drop n buffer in
    (
      subst (λ x. n ≤ length x) (sym (piece_exact (at_round buffer remaining [] other) z)) t.1,
      TakesSome-IsHonest answers (drop n buffer) (remaining - n) (omega arith) t.2,
    )
TakesSome-IsHonest (refused e ∷ answers) buffer remaining z t = absurd t

after_loop-send_buffer :
    (end : WriteEnd) (w : WriteState) (answer : Bool) (h : Host)
    → (after_loop end w answer h).host.send_buffer ≡ h.send_buffer
unfolding after_loop
after_loop-send_buffer threw w answer h = refl
after_loop-send_buffer unanswered w answer h = refl
after_loop-send_buffer _ w answer h = finish_writing-send_buffer answer h

-- If there are fewer than 2^31 bytes to send, the call starts with no stale EAGAIN and send takes
-- at least a byte each time, as many rounds as there are bytes to send are enough: the loop ends
-- with nothing left, and all of the send buffer is on the wire.
pub write_callback-all :
    (answers : List SendAnswer) (answer : Bool) (h : Host)
    → length h.send_buffer < 2 ^ 31
    → TakesSome answers h.send_buffer
    → length h.send_buffer ≤ length answers
    → ((write_callback answers answer other h).wire ≡ h.send_buffer)
      × ((write_callback answers answer other h).host.send_buffer ≡ [])
unfolding write_callback
write_callback-all answers answer h short t le =
    let size = int_size_small h.send_buffer short in
    let r = write_callback answers answer other h in
    let (end, w) = write_loop answers (start_state other h) in
    let (_, nothing) = write_loop-drained answers (start_state other h) refl size t le in
    let left = record h { send_buffer = w.buffer } in
    let empty : r.host.send_buffer ≡ [] = after_loop-send_buffer end w answer left ∙ nothing in
    let whole = write_callback-append answers answer h (TakesSome-IsHonest answers _ _ size t) in
    (sym (append-nil r.wire) ∙ ap (◌++◌ r.wire) (sym empty) ∙ whole, empty)

-- In a call that finds EAGAIN left in errno, a send that takes bytes is taken for one that does
-- not: its bytes are on the wire and stay in the send buffer, to be sent again.
pub write_callback_again :
    (n : ℕ) (answers : List SendAnswer) (answer : Bool) (h : Host)
    → h.send_buffer ≢ []
    → length h.send_buffer < 2 ^ 31
    → ((write_callback (sent n ∷ answers) answer would_block h).wire
        ≡ take n (take send_size h.send_buffer))
      × ((write_callback (sent n ∷ answers) answer would_block h).host.send_buffer ≡ h.send_buffer)
unfolding write_callback after_loop
write_callback_again n answers answer h ne short =
    let w = start_state would_block h in
    let size = int_size_small h.send_buffer short in
    let exact = piece_exact w size in
    let gone = record w { on_the_wire = take n (piece w) } in
    let ne0 : length h.send_buffer ≢ 0 = λ z. ne (nil_of_length h.send_buffer (omega (arith, z))) in
    let some_left : (w.remaining == 0) ≡ false = ground (arith, size, ne0) in
    let run : write_loop (sent n ∷ answers) w ≡ (blocked, gone) = rw (write_loop, some_left) refl in
    ground (arith, finish_writing-send_buffer answer h)

write_loop_none :
    (answers : List SendAnswer) (w : WriteState)
    → w.remaining ≡ 0
    → write_loop answers w ≡ (drained, w)
unfolding write_loop
write_loop_none [] w h = rw (write_loop, h) refl
write_loop_none (sent n ∷ answers) w h = rw (write_loop, h) refl
write_loop_none (refused e ∷ answers) w h = rw (write_loop, h) refl

int_size_large : (s : Bytes) → 2 ^ 31 ≤ length s → length s < 2 ^ 32 → int_size s ≡ 0
unfolding int_size
int_size_large s a b = ground arith

-- From 2^31 bytes up to 2^32 the size is negative, and the loop does not run: nothing is sent.
pub write_callback-stuck :
    (answers : List SendAnswer) (answer : Bool) (errno : Errno) (h : Host)
    → 2 ^ 31 ≤ length h.send_buffer
    → length h.send_buffer < 2 ^ 32
    → ((write_callback answers answer errno h).wire ≡ [])
      × ((write_callback answers answer errno h).host.send_buffer ≡ h.send_buffer)
unfolding write_callback after_loop
write_callback-stuck answers answer errno h a b =
    let w = start_state errno h in
    let stuck = write_loop_none answers w (int_size_large h.send_buffer a b) in
    ground (arith, finish_writing-send_buffer answer h)
