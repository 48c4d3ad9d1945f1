-- ===== src/Methods/Save/Contents.antt =====
-- The receive loop of `_save_file_common`: what is written to the file, and what is left of it after a
-- failure.
use clip_share_desktop.Prelude.{
  ℕ, zero, suc, ◌+◌, ◌-◌, ◌≤◌, ◌≡◌, refl, sym, ap, ◌∙◌, inl, inr, Bool-cases, true, false, List, [],
  ◌∷◌, ◌++◌, Bytes, length, min, arith, append_assoc, append-nil, length-append,
}
use mathlib.Core.Path.{subst}
use clip_share_desktop.Proto.Status.{resp_communication_failure}
use clip_share_desktop.Net.{Recv, Outcome, done, failure, out_of_fuel, read_bytes}
use clip_share_desktop.Net.Read.{Exactly, read_bytes-Exactly}
use clip_share_desktop.World.{Env, World, History, call, write_file, remove, notified}
use clip_share_desktop.World.Trace.{written, written-write_file}
use clip_share_desktop.Action.{Action, Result, ok, err, stuck, continue}
use clip_share_desktop.Action.Steps.{noted}
use clip_share_desktop.Methods.Save.{receive_block, receive_contents, file_buf_sz}

-- The last thing that was done to a file is its removal: behind it are calls of the callback at most.
abbrev pub Removed : Bytes → History → Type 0
Removed path [] = ⊥
Removed path (call (remove p) ∷ h) = p ≡ path
Removed path (notified status msg ∷ h) = Removed path h
Removed path (e ∷ h) = ⊥

abbrev pub Saved : Bytes → ℕ → History → Result (Unit {0}) × World → Type 0
Saved path size h (ok u, w) =
    (bs : Bytes) × (length bs ≡ size) × (written path w.history ≡ written path h ++ bs)
Saved path size h (err, w) = Removed path w.history
Saved path size h (stuck, w) = ⊥

module _ (path : Bytes) (len : ℕ) (env : Env) (w : World) (s : List Recv) where
  pub block-stored :
      (bs : Bytes)
      → read_bytes w.socket len w.inbound ≡ (done bs, s)
      → env.answer w.history (write_file path bs) ≡ true
      → receive_block path len env w
        ≡ (ok tt, record w { inbound = s; history = call (write_file path bs) ∷ w.history })
  unfolding receive_block
  block-stored bs r a = ground arith

  block-full :
      (bs : Bytes)
      → read_bytes w.socket len w.inbound ≡ (done bs, s)
      → env.answer w.history (write_file path bs) ≡ false
      → receive_block path len env w ≡ (
        err,
        record w {
          inbound = s;
          history = call (remove path) ∷ call (write_file path bs) ∷ w.history;
        },
      )
  unfolding receive_block
  block-full bs r a = ground arith

  block-lost :
      read_bytes w.socket len w.inbound ≡ (failure, s)
      → receive_block path len env w ≡ (
        err,
        record w {
          inbound = s;
          history = noted env resp_communication_failure [] (call (remove path) ∷ w.history);
        },
      )
  unfolding receive_block
  block-lost r = ground arith

Removed-noted :
    (env : Env) (status : ℕ) (path : Bytes) (h : History)
    → Removed path (noted env status [] (call (remove path) ∷ h))
Removed-noted env status path h = ground arith

block_read :
    (path : Bytes) (len : ℕ) (env : Env) (w : World) (o : Outcome)
    → Exactly len o
    → (read_bytes w.socket len w.inbound).0 ≡ o
    → Saved path len w.history (receive_block path len env w)
block_read path len env w (done bs) x e =
    let r : read_bytes w.socket len w.inbound ≡ (done bs, (read_bytes w.socket len w.inbound).1) =
      λ i. (e i, (read_bytes w.socket len w.inbound).1) in
    elim (Bool-cases (env.answer w.history (write_file path bs))) [
      | inl a ↦
          subst (Saved path len w.history) (sym (block-stored path len env w _ bs r a))
            (bs, x, written-write_file path bs w.history)
      | inr a ↦ subst (Saved path len w.history) (sym (block-full path len env w _ bs r a)) refl
    ]
block_read path len env w failure x e =
    subst (Saved path len w.history)
      (sym (block-lost path len env w _ (λ i. (e i, (read_bytes w.socket len w.inbound).1))))
      (Removed-noted env resp_communication_failure path w.history)
block_read path len env w out_of_fuel x e = absurd x

pub receive_block-Saved :
    (path : Bytes) (len : ℕ) (env : Env) (w : World)
    → Saved path len w.history (receive_block path len env w)
receive_block-Saved path len env w =
    block_read path len env w (read_bytes w.socket len w.inbound).0
      (read_bytes-Exactly w.socket len w.inbound) refl

Saved-more :
    (path : Bytes) (n m : ℕ) (h : History) (w : World) (bs : Bytes) (r : Result (Unit {0}) × World)
    → length bs ≡ n
    → written path w.history ≡ written path h ++ bs
    → Saved path m w.history r
    → Saved path (n + m) h r
Saved-more path n m h w bs (ok u, w') l e (more, l', e') = (
  bs ++ more,
  omega (arith, length-append bs more),
  e' ∙ ap (λ x. x ++ more) e ∙ append_assoc (written path h) bs more,
)
Saved-more path n m h w bs (err, w') l e s = s
Saved-more path n m h w bs (stuck, w') l e s = s

-- `m` and then `k`, as the loop puts them together.
Saved-then :
    (path : Bytes) (n m : ℕ) (env : Env) (h : History) (r : Result (Unit {0}) × World)
    (k : Action (Unit {0}))
    → Saved path n h r
    → ((w : World) → Saved path m w.history (k env w))
    → Saved path (n + m) h (continue r.0 (λ u. k) env r.1)
Saved-then path n m env h (ok u, w) k (bs, l, e) s = Saved-more path n m h w bs (k env w) l e (s w)
Saved-then path n m env h (err, w) k s s' = s
Saved-then path n m env h (stuck, w) k s s' = s

-- On every connection and every disk the loop ends within as many rounds as the file has bytes. If it
-- succeeds it has written exactly `size` bytes to the path; if it fails, for the socket or for the
-- disk, the file is removed, and nothing is done behind that but a call of the callback.
pub receive_contents-Saved :
    (fuel size : ℕ) (path : Bytes) (env : Env) (w : World)
    → size ≤ fuel
    → Saved path size w.history (receive_contents fuel path size env w)
unfolding receive_contents
receive_contents-Saved fuel zero path env w h =
    ([], refl, sym (append-nil (written path w.history)))
receive_contents-Saved zero (suc left) path env w h = absurd (omega arith)
receive_contents-Saved (suc fuel) (suc left) path env w h =
    let len = min (suc left) file_buf_sz in
    subst (λ n. Saved path n w.history (receive_contents (suc fuel) path (suc left) env w))
      (omega arith)
      (Saved-then path len (suc left - len) env w.history (receive_block path len env w)
        (receive_contents fuel path (suc left - len)) (receive_block-Saved path len env w)
        (λ w'. receive_contents-Saved fuel (suc left - len) path env w' (omega arith)))
