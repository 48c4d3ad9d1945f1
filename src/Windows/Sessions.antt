-- ===== src/Windows/Sessions.antt =====
-- How an operation leaves the clipboard: closed as often as it was opened, up to what it owes.
use clip_share_desktop.Prelude.{
  ℕ, suc, ◌+◌, ◌≡◌, refl, ap, Bool, true, false, Option, none, some, [], ◌∷◌, arith,
}
use clip_share_desktop.World.{
  Call, call, open_clipboard, clipboard_opened, clipboard_emptied, clipboard_closed, History, Env,
  World,
}
use clip_share_desktop.Action.{
  Action, Result, ok, err, stuck, pure, asks, ask, choose, record_event, attempt, unchecked, fail,
  fail_if, continue, ◌>>=◌, ◌>>◌,
}
use clip_share_desktop.Clipboard.CutFiles.{init_list}
use clip_share_desktop.Windows.{open_once, open_clipboard_wrapper, close_with}

-- How often the clipboard was opened, and how often it was closed.
abbrev pub opens : History → ℕ
opens [] = 0
opens (clipboard_opened ∷ h) = suc (opens h)
opens (e ∷ h) = opens h

abbrev pub closes : History → ℕ
closes [] = 0
closes (clipboard_closed ∷ h) = suc (closes h)
closes (e ∷ h) = closes h

-- The call returns, and closes the clipboard `k` times more than it opens it. A NULL that is used ends
-- the process.
abbrev pub Owes : {A : Type 0} → ℕ → History → Result A × World → Type 0
Owes k h (ok a, w) = opens w.history + closes h + k ≡ opens h + closes w.history
Owes k h (err, w) = ⊥
Owes k h (stuck, w) = Unit

pub record Owing (k : ℕ) (A : Type 0) (m : Action A) : Type 0 where
  pub owes : (env : Env) (w : World) → Owes k w.history (m env w)

module _ (A : Type 0) where
  pub pure-Owing : (a : A) → Owing 0 A (pure a)
  unfolding pure
  pure-Owing a = record { owes = λ env w. omega arith }

  pub asks-Owing : (f : Env → History → A) → Owing 0 A (asks f)
  unfolding asks
  asks-Owing f = record { owes = λ env w. omega arith }

  pub close_with-Owing : (a : A) → Owing 1 A (close_with a)
  unfolding close_with ◌>>=◌ pure record_event
  close_with-Owing a = record { owes = λ env w. omega arith }

  pub choose-Owing :
      (k : ℕ) (test : Bool) (m n : Action A)
      → Owing k A m
      → Owing k A n
      → Owing k A (choose test m n)
  unfolding choose
  choose-Owing k true m n hm hn = record { owes = hm.owes }
  choose-Owing k false m n hm hn = record { owes = hn.owes }

pub ask-Owing : (c : Call) → Owing 0 Bool (ask c)
unfolding ask
ask-Owing c = record { owes = λ env w. omega arith }

pub emptied-Owing : Owing 0 (Unit {0}) (record_event clipboard_emptied)
unfolding record_event
emptied-Owing = record { owes = λ env w. omega arith }

module _ (A B : Type 0) where
  more-Owes :
      (k : ℕ) (h h' : History) (r : Result B × World)
      → opens h' + closes h + 0 ≡ opens h + closes h'
      → Owes k h' r
      → Owes k h r
  more-Owes k h h' (ok b, w) e o = omega arith
  more-Owes k h h' (err, w) e o = o
  more-Owes k h h' (stuck, w) e o = tt

  continue-Owes :
      (k : ℕ) (h : History) (r : Result A) (f : A → Action B) (env : Env) (w : World)
      → Owes 0 h (r, w)
      → ((a : A) → Owing k B (f a))
      → Owes k h (continue r f env w)
  continue-Owes k h (ok a) f env w o hf = more-Owes k h w.history (f a env w) o ((hf a).owes env w)
  continue-Owes k h err f env w o hf = o
  continue-Owes k h stuck f env w o hf = tt

  pub >>=-Owing :
      (k : ℕ) (m : Action A) (f : A → Action B)
      → Owing 0 A m
      → ((a : A) → Owing k B (f a))
      → Owing k B (m >>= f)
  unfolding ◌>>=◌
  >>=-Owing k m f hm hf = record {
    owes = λ env w. continue-Owes k w.history (m env w).0 f env (m env w).1 (hm.owes env w) hf;
  }

-- `true` says that the clipboard is open.
abbrev Opened : History → Result Bool × World → Type 0
Opened h (ok true, w) = opens w.history + closes h ≡ suc (opens h) + closes w.history
Opened h (ok false, w) = opens w.history + closes h ≡ opens h + closes w.history
Opened h (err, w) = ⊥
Opened h (stuck, w) = Unit

tried-Opened :
    (b : Bool) (env : Env) (w : World) (c : Call) (h : History)
    → w.history ≡ call c ∷ h
    → Opened h (choose b (do record_event clipboard_opened; pure true) (pure false) env w)
unfolding choose record_event pure ◌>>=◌
tried-Opened true env w c h e = omega (arith, ap opens e, ap closes e)
tried-Opened false env w c h e = omega (arith, ap opens e, ap closes e)

open_once-Opened : (env : Env) (w : World) → Opened w.history (open_once env w)
unfolding open_once ask ◌>>=◌
open_once-Opened env w =
    tried-Opened (env.answer w.history open_clipboard) env (ask open_clipboard env w).1
      open_clipboard w.history refl

more-Opened :
    (h h' : History) (r : Result Bool × World)
    → opens h' + closes h ≡ opens h + closes h'
    → Opened h' r
    → Opened h r
more-Opened h h' (ok true, w) e o = omega arith
more-Opened h h' (ok false, w) e o = omega arith
more-Opened h h' (err, w) e o = o
more-Opened h h' (stuck, w) e o = tt

again-Opened :
    (env : Env) (h : History) (r : Result Bool) (w : World)
    → Opened h (r, w)
    → Opened h (continue r (λ got. choose got (pure true) open_once) env w)
unfolding choose pure
again-Opened env h (ok true) w o = o
again-Opened env h (ok false) w o =
    more-Opened h w.history (open_once env w) o (open_once-Opened env w)
again-Opened env h err w o = o
again-Opened env h stuck w o = o

wrapper-Opened : (env : Env) (w : World) → Opened w.history (open_clipboard_wrapper env w)
unfolding open_clipboard_wrapper ◌>>=◌
wrapper-Opened env w =
    again-Opened env w.history (open_once env w).0 (open_once env w).1 (open_once-Opened env w)

closed-Owes :
    {A : Type 0} (h h' : History) (r : Result A × World)
    → opens h' + closes h ≡ suc (opens h) + closes h'
    → Owes 1 h' r
    → Owes 0 h r
closed-Owes h h' (ok a, w) e o = omega arith
closed-Owes h h' (err, w) e o = o
closed-Owes h h' (stuck, w) e o = tt

module _ (A : Type 0) where
  wrapper-Owes :
      (h : History) (r : Result Bool) (m n : Action A) (env : Env) (w : World)
      → Opened h (r, w)
      → Owing 1 A m
      → Owing 0 A n
      → Owes 0 h (continue r (λ got. choose got m n) env w)
  unfolding choose
  wrapper-Owes h (ok true) m n env w o hm hn = closed-Owes h w.history (m env w) o (hm.owes env w)
  wrapper-Owes h (ok false) m n env w o hm hn =
      more-Owes Bool A 0 h w.history (n env w) (omega arith) (hn.owes env w)
  wrapper-Owes h err m n env w o hm hn = o
  wrapper-Owes h stuck m n env w o hm hn = tt

  pub opened-Owing :
      (m n : Action A)
      → Owing 1 A m
      → Owing 0 A n
      → Owing 0 A (open_clipboard_wrapper >>= λ got. choose got m n)
  unfolding ◌>>=◌
  opened-Owing m n hm hn = record {
    owes = λ env w.
        wrapper-Owes w.history (open_clipboard_wrapper env w).0 m n env
          (open_clipboard_wrapper env w).1 (wrapper-Opened env w) hm hn;
  }

pub fail_if-Owing : (bad : Bool) → Owing 0 (Unit {0}) (unchecked (fail_if bad))
unfolding unchecked fail_if fail pure
fail_if-Owing true = record { owes = λ env w. tt }
fail_if-Owing false = record { owes = λ env w. omega arith }

-- A call that may fail, with the clipboard as it was.
record Quiet (A : Type 0) (m : Action A) : Type 0 where
  quiet :
      (env : Env) (w : World)
      → opens (m env w).1.history + closes w.history ≡ opens w.history + closes (m env w).1.history

module _ (A B : Type 0) where
  continue-kept :
      (h : History) (r : Result A) (f : A → Action B) (env : Env) (w : World)
      → opens w.history + closes h ≡ opens h + closes w.history
      → ((a : A) → Quiet B (f a))
      → opens (continue r f env w).1.history + closes h
        ≡ opens h + closes (continue r f env w).1.history
  continue-kept h (ok a) f env w e hf = omega (arith, (hf a).quiet env w)
  continue-kept h err f env w e hf = e
  continue-kept h stuck f env w e hf = e

  >>=-Quiet :
      (m : Action A) (f : A → Action B) → Quiet A m → ((a : A) → Quiet B (f a)) → Quiet B (m >>= f)
  unfolding ◌>>=◌
  >>=-Quiet m f hm hf = record {
    quiet = λ env w. continue-kept w.history (m env w).0 f env (m env w).1 (hm.quiet env w) hf;
  }

ask-Quiet : (c : Call) → Quiet Bool (ask c)
unfolding ask
ask-Quiet c = record { quiet = λ env w. refl }

fail_if-Quiet : (bad : Bool) → Quiet (Unit {0}) (fail_if bad)
unfolding fail_if fail pure
fail_if-Quiet true = record { quiet = λ env w. refl }
fail_if-Quiet false = record { quiet = λ env w. refl }

init_list-Quiet : (n : ℕ) → Quiet (Unit {0}) (init_list n)
unfolding init_list
init_list-Quiet n = search (>>=-Quiet, ask-Quiet, fail_if-Quiet) depth 8

attempt-Owes :
    (h : History) (r : Result (Unit {0})) (w : World)
    → opens w.history + closes h ≡ opens h + closes w.history
    → Owes {A = Option (Unit {0})} 0 h
        (elim r [ ok a ↦ (ok (some a), w) | err ↦ (ok none, w) | stuck ↦ (stuck, w) ])
attempt-Owes h (ok a) w e = omega arith
attempt-Owes h err w e = omega arith
attempt-Owes h stuck w e = tt

pub init_list-Owing : (n : ℕ) → Owing 0 (Option (Unit {0})) (attempt (init_list n))
unfolding attempt
init_list-Owing n = record {
  owes = λ env w.
      attempt-Owes w.history (init_list n env w).0 (init_list n env w).1
        ((init_list-Quiet n).quiet env w);
}
