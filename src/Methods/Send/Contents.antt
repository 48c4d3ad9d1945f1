-- ===== src/Methods/Send/Contents.antt =====
-- The loop of `_transfer_regular_file`: what it sends of a file, and when it does not end.
use clip_share_desktop.Prelude.{
  ℕ, zero, suc, ◌+◌, ◌-◌, ◌≤◌, ◌<◌, ◌≡◌, refl, sym, ap, ◌∙◌, List, [], ◌∷◌, ◌++◌, Bytes, length,
  arith, append_assoc, append-nil, take, drop, length-drop,
}
use mathlib.Core.Path.{subst}
use clip_share_desktop.Net.{SockType, Recv}
use clip_share_desktop.Net.Write.{write_bytes-idle}
use clip_share_desktop.World.{Env, World, History, sent, fread}
use clip_share_desktop.World.Trace.{wire, position}
use clip_share_desktop.Action.{Result, ok, stuck}
use clip_share_desktop.Action.Healthy.{on}
use clip_share_desktop.Methods.Save.{file_buf_sz}
use clip_share_desktop.Methods.Send.{send_contents}

-- A regular file with this content, read from where the last `fread` left off.
abbrev pub IsFile : Env → Bytes → Bytes → Type 0
IsFile env path content =
    (h : History) (n : ℕ) → env.file_data h path n ≡ take n (drop (position h) content)

-- A run that succeeds, and has sent these bytes and nothing else.
pub record SentAll (kind : SockType) (s : List Recv) (h : History) (bs : Bytes)
    (r : Result (Unit {0}) × World) : Type 0 where
  pub history : History
  pub runs : r ≡ (ok tt, on kind s history)
  pub all : wire history ≡ wire h ++ bs

drop-nil : (n : ℕ) → drop {A = ℕ} n [] ≡ []
drop-nil zero = refl
drop-nil (suc n) = refl

drop-drop : (n m : ℕ) (xs : Bytes) → drop (n + m) xs ≡ drop m (drop n xs)
drop-drop zero m xs = ap (λ k. drop k xs) (omega arith)
drop-drop (suc n) m [] = drop-nil (suc n + m) ∙ sym (drop-nil m)
drop-drop (suc n) m (x ∷ xs) =
    ap (λ k. drop k (x ∷ xs)) {y = suc (n + m)} (omega arith) ∙ drop-drop n m xs

cut : (n : ℕ) (xs : Bytes) → take n xs ++ drop (length (take n xs)) xs ≡ xs
cut zero xs = refl
cut (suc n) [] = refl
cut (suc n) (x ∷ xs) = ap (λ l. x ∷ l) (cut n xs)

module _ (env : Env) (path : Bytes) where
  round :
      (fuel left : ℕ) (kind : SockType) (s : List Recv) (h : History) (c : ℕ) (bs : Bytes)
      → env.file_data h path file_buf_sz ≡ c ∷ bs
      → send_contents (suc fuel) path (suc left) env (on kind s h)
        ≡ send_contents fuel path
            (suc left - length (c ∷ bs))
            env
            (on kind s (sent (c ∷ bs) ∷ fread (c ∷ bs) ∷ h))
  unfolding send_contents
  round fuel left kind s h c bs e = ground (arith, write_bytes-idle kind (c ∷ bs))

  empty_round :
      (fuel left : ℕ) (w : World)
      → env.file_data w.history path file_buf_sz ≡ []
      → send_contents (suc fuel) path (suc left) env w
        ≡ send_contents fuel path (suc left) env (record w { history = fread [] ∷ w.history })
  unfolding send_contents
  empty_round fuel left w e = ground arith

  -- As long as a file yields nothing while bytes of the announced size are left, the loop goes on:
  -- however many rounds it is given, it does not return.
  pub send_contents-hangs :
      (fuel left : ℕ) (w : World)
      → 0 < left
      → ((h : History) → env.file_data h path file_buf_sz ≡ [])
      → (send_contents fuel path left env w).0 ≡ stuck
  unfolding send_contents
  send_contents-hangs fuel zero w p e = absurd (omega arith)
  send_contents-hangs zero (suc left) w p e = refl
  send_contents-hangs (suc fuel) (suc left) w p e =
      ap (λ r. r.0) (empty_round fuel left w (e w.history))
      ∙ send_contents-hangs fuel (suc left) (record w { history = fread [] ∷ w.history }) p e

  sent_round :
      (kind : SockType) (s : List Recv) (h h' : History) (bs more : Bytes)
      (r : Result (Unit {0}) × World)
      → wire h' ≡ wire h ++ bs
      → SentAll kind s h' more r
      → SentAll kind s h (bs ++ more) r
  sent_round kind s h h' bs more r e a = record {
    history = a.history;
    runs = a.runs;
    all = a.all ∙ ap (λ x. x ++ more) e ∙ append_assoc (wire h) bs more;
  }

  module _ (content : Bytes) (file : IsFile env path content) (kind : SockType)
      (s : List Recv) where
    send_rest :
        (fuel n : ℕ) (rest : Bytes) (h : History)
        → n ≡ length rest
        → n ≤ fuel
        → drop (position h) content ≡ rest
        → SentAll kind s h rest (send_contents fuel path n env (on kind s h))
    unfolding send_contents
    send_rest fuel zero [] h e l d = record {
      history = h;
      runs = refl;
      all = sym (append-nil (wire h));
    }
    send_rest fuel zero (b ∷ rest) h e l d = absurd (omega arith)
    send_rest zero (suc left) rest h e l d = absurd (omega arith)
    send_rest (suc fuel) (suc left) [] h e l d = absurd (omega arith)
    send_rest (suc fuel) (suc left) (b ∷ rest) h e l d =
        let n = length (take 65535 rest) in
        let bs = b ∷ take 65535 rest in
        let h' : History = sent bs ∷ fread bs ∷ h in
        let read : env.file_data h path file_buf_sz ≡ bs =
          file h file_buf_sz ∙ ap (take file_buf_sz) d in
        let next : drop (position h') content ≡ drop n rest =
          drop-drop (position h) (suc n) content ∙ ap (drop (suc n)) d in
        subst (λ x. SentAll kind s h x (send_contents (suc fuel) path (suc left) env (on kind s h)))
          (cut file_buf_sz (b ∷ rest))
          (subst (SentAll kind s h (bs ++ drop n rest))
            (sym (round fuel left kind s h b (take 65535 rest) read))
            (sent_round kind s h h' bs (drop n rest) _ refl (
              send_rest fuel (suc left - suc n) (drop n rest) h' (omega (arith, length-drop n rest))
                (omega arith) next)))

    -- If the file has the announced size and the peer takes it, the loop ends within as many rounds as
    -- there are bytes, and has sent just the bytes of the file, in order.
    pub send_contents-SentAll :
        (fuel : ℕ) (h : History)
        → position h ≡ 0
        → length content ≤ fuel
        → SentAll kind s h content (send_contents fuel path (length content) env (on kind s h))
    send_contents-SentAll fuel h p l =
        send_rest fuel (length content) content h refl l (ap (λ n. drop n content) p)
