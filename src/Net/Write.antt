-- ===== src/Net/Write.antt =====
-- The loop of `write_sock` of utils/net_utils.c: what has gone out when it ends.
use clip_share_desktop.Prelude.{
  ℕ, zero, suc, ◌+◌, ◌<◌, min, ◌≡◌, ◌≢◌, refl, ap, ◌∙◌, false, ◌||◌, List, [], ◌∷◌, ◌++◌, ltb,
  Bytes, length, take, drop, length-drop, take-append-drop, append_assoc, arith, Bool-cases, inl,
  inr,
}
use clip_share_desktop.Net.{
  SockType, Send, room, send_fault, write_fatal, write_once, Outcome, done, failure, out_of_fuel,
  max_request, Written, write_loop, write_bytes,
}

-- What a run of the loop over `bs` says of the bytes `sent`.
abbrev pub Delivered : Bytes → Bytes → Outcome → Type 0
Delivered bs sent (done more) = (more ≡ []) × (sent ≡ bs)
Delivered bs sent failure = (lost : Bytes) × (sent ++ lost ≡ bs) × (lost ≢ [])
Delivered bs sent out_of_fuel = ⊥

Delivered-step :
    (n : ℕ) (bs sent : Bytes) (o : Outcome)
    → Delivered (drop n bs) sent o
    → Delivered bs (take n bs ++ sent) o
Delivered-step n bs sent (done more) (e, p) =
    (e, ap (λ l. take n bs ++ l) p ∙ take-append-drop n bs)
Delivered-step n bs sent failure (lost, p, q) = (
  lost,
  append_assoc (take n bs) sent lost ∙ ap (λ l. take n bs ++ l) p ∙ take-append-drop n bs,
  q,
)
Delivered-step n bs sent out_of_fuel h = h

cons-ne-nil {ℓ} : {A : Type ℓ} (x : A) (xs : List A) → (x ∷ xs) ≢ []
cons-ne-nil x xs e = cc

write_loop-Delivered :
    (fuel : ℕ) (kind : SockType) (cnt : ℕ) (bs : Bytes) (s : List Send)
    → length bs + length s < fuel
    → Delivered bs (write_loop fuel kind cnt bs s).sent (write_loop fuel kind cnt bs s).outcome
unfolding write_loop write_once
write_loop-Delivered zero kind cnt bs s h = absurd (omega arith)
write_loop-Delivered (suc fuel) kind cnt [] s h = (refl, refl)
write_loop-Delivered (suc fuel) kind cnt (b ∷ bs) [] h =
    let n : ℕ = min (length (b ∷ bs)) max_request in
    let more : Written = write_loop fuel kind 1 (drop n (b ∷ bs)) [] in
    Delivered-step n (b ∷ bs) more.sent more.outcome (
      write_loop-Delivered fuel kind 1 (drop n (b ∷ bs)) [] (omega (arith, length-drop n (b ∷ bs))))
write_loop-Delivered (suc fuel) kind cnt (b ∷ bs) (room (suc k) ∷ s) h =
    let n : ℕ = min (min (length (b ∷ bs)) max_request) (suc k) in
    let more : Written = write_loop fuel kind 1 (drop n (b ∷ bs)) s in
    Delivered-step n (b ∷ bs) more.sent more.outcome
      (write_loop-Delivered fuel kind 1 (drop n (b ∷ bs)) s (omega (arith, length-drop n (b ∷ bs))))
write_loop-Delivered (suc fuel) kind cnt (b ∷ bs) (room zero ∷ s) h =
    elim (Bool-cases (ltb 10 cnt || false)) [
      | inl stop ↦ rw (write_loop, stop) (b ∷ bs, refl, cons-ne-nil b bs)
      | inr go ↦
          rw (write_loop, go) (write_loop-Delivered fuel kind (cnt + 1) (b ∷ bs) s (omega arith))
    ]
write_loop-Delivered (suc fuel) kind cnt (b ∷ bs) (send_fault x ∷ s) h =
    elim (Bool-cases (ltb 10 cnt || write_fatal kind x)) [
      | inl stop ↦ rw (write_loop, stop) (b ∷ bs, refl, cons-ne-nil b bs)
      | inr go ↦
          rw (write_loop, go) (write_loop-Delivered fuel kind (cnt + 1) (b ∷ bs) s (omega arith))
    ]

-- On every script `write_sock` ends: with success and the whole buffer sent, or with failure and a
-- proper prefix of it sent.
pub write_bytes-Delivered :
    (kind : SockType) (bs : Bytes) (s : List Send)
    → Delivered bs (write_bytes kind bs s).sent (write_bytes kind bs s).outcome
unfolding write_bytes
write_bytes-Delivered kind bs s =
    write_loop-Delivered (suc (length bs + length s)) kind 0 bs s (omega arith)

sent_all : (bs sent : Bytes) (o : Outcome) → o ≡ done [] → Delivered bs sent o → sent ≡ bs
sent_all bs sent (done more) e d = d.1
sent_all bs sent failure e d = cc
sent_all bs sent out_of_fuel e d = cc

write_loop-idle :
    (fuel : ℕ) (kind : SockType) (cnt : ℕ) (bs : Bytes) → (write_loop fuel kind cnt bs []).rest ≡ []
unfolding write_loop write_once
write_loop-idle zero kind cnt [] = refl
write_loop-idle zero kind cnt (b ∷ bs) = refl
write_loop-idle (suc fuel) kind cnt [] = refl
write_loop-idle (suc fuel) kind cnt (b ∷ bs) =
    write_loop-idle fuel kind 1 (drop (min (length (b ∷ bs)) max_request) (b ∷ bs))

write_loop-done :
    (fuel : ℕ) (kind : SockType) (cnt : ℕ) (bs : Bytes)
    → length bs < fuel
    → (write_loop fuel kind cnt bs []).outcome ≡ done []
unfolding write_loop write_once
write_loop-done zero kind cnt bs h = absurd (omega arith)
write_loop-done (suc fuel) kind cnt [] h = refl
write_loop-done (suc fuel) kind cnt (b ∷ bs) h =
    write_loop-done fuel kind 1 (drop (min (length (b ∷ bs)) max_request) (b ∷ bs))
      (omega (arith, length-drop (min (length (b ∷ bs)) max_request) (b ∷ bs)))

-- A peer that takes whatever is offered gets the whole buffer.
pub write_bytes-idle :
    (kind : SockType) (bs : Bytes)
    → write_bytes kind bs [] ≡ record { outcome = done []; sent = bs; rest = [] }
unfolding write_bytes
write_bytes-idle kind bs =
    let w : Written = write_loop (suc (length bs + 0)) kind 0 bs [] in
    let out : w.outcome ≡ done [] = write_loop-done (suc (length bs + 0)) kind 0 bs (omega arith) in
    let all : w.sent ≡ bs =
      sent_all bs w.sent w.outcome out
        (write_loop-Delivered (suc (length bs + 0)) kind 0 bs [] (omega arith)) in
    let left : w.rest ≡ [] = write_loop-idle (suc (length bs + 0)) kind 0 bs in
    λ i. record { outcome = out i; sent = all i; rest = left i }
