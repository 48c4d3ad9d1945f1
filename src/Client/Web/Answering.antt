-- ===== src/Client/Web/Answering.antt =====
-- The handlers call the callback at least once.
use clip_share_desktop.Prelude.{
  ℕ, ◌≡◌, refl, Bool, true, false, Option, none, some, List, [], ◌∷◌, ◌++◌, Bytes,
}
use clip_share_desktop.World.{Env, World}
use clip_share_desktop.Action.{Action, Result, ok, err, stuck, notify_with, choose, continue, ◌>>=◌}
use clip_share_desktop.Proto.Status.{MethodArgs}
use clip_share_desktop.Client.Host.{Host}
use clip_share_desktop.Client.Web.{
  Response, with_callback_fn, request_connected, request_server, request_address, try_method,
  answer_scan, try_scan,
}
use clip_share_desktop.Client.Web.Notices.{notices, is_told}

-- An action that calls the callback at least once, if it comes to its end.
abbrev pub Answers : {A : Type 0} → Result A × World → Type 0
Answers (ok a, w) = is_told (notices w.history) ≡ true
Answers (err, w) = Unit
Answers (stuck, w) = Unit

pub is_told-end : (told : List Response) (r : Response) → is_told (told ++ (r ∷ [])) ≡ true
is_told-end [] r = refl
is_told-end (a ∷ told) r = refl

-- In the environment of a request.
pub record Answering (env : Env) (A : Type 0) (m : Action A) : Type 0 where
  pub answers : (w : World) → Answers (m (with_callback_fn env) w)

module _ (env : Env) where
  module _ (A B : Type 0) where
    continue-Answers :
        (r : Result A) (f : A → Action B) (w : World)
        → ((a : A) → Answering env B (f a))
        → Answers (continue r f (with_callback_fn env) w)
    continue-Answers (ok a) f w h = (h a).answers w
    continue-Answers err f w h = tt
    continue-Answers stuck f w h = tt

    >>=-Answering :
        (m : Action A) (f : A → Action B)
        → ((a : A) → Answering env B (f a))
        → Answering env B (m >>= f)
    unfolding ◌>>=◌
    >>=-Answering m f h = record {
      answers =
          λ w. continue-Answers (m (with_callback_fn env) w).0 f (m (with_callback_fn env) w).1 h;
    }

  choose-Answering :
      (A : Type 0) (test : Bool) (m n : Action A)
      → Answering env A m
      → Answering env A n
      → Answering env A (choose test m n)
  unfolding choose
  choose-Answering A true m n hm hn = record { answers = hm.answers }
  choose-Answering A false m n hm hn = record { answers = hn.answers }

  notify-Answering : (status : ℕ) (msg : Bytes) → Answering env (Unit {0}) (notify_with status msg)
  unfolding notify_with
  notify-Answering status msg = record {
    answers = λ w. is_told-end (notices w.history) (status, msg);
  }

  request_connected-Answering :
      (method : ℕ) (args : Option MethodArgs)
      → Answering env (Unit {0}) (request_connected method args)
  unfolding request_connected
  request_connected-Answering method args = search (>>=-Answering, notify-Answering)

  request_server-Answering :
      (host : Host) (addr method : ℕ) (args : Option MethodArgs)
      → Answering env (Unit {0}) (request_server host addr method args)
  unfolding request_server
  request_server-Answering host addr method args =
      search (>>=-Answering, choose-Answering, notify-Answering, request_connected-Answering)

  request_address-Answering :
      (host : Host) (addr : Option ℕ) (method : ℕ) (args : Option MethodArgs)
      → Answering env (Unit {0}) (request_address host addr method args)
  unfolding request_address
  request_address-Answering host none method args = notify-Answering _ _
  request_address-Answering host (some addr) method args =
      request_server-Answering host addr method args

  answer_scan-Answering :
      (servers : Option (List Bytes)) → Answering env (Unit {0}) (answer_scan servers)
  unfolding answer_scan
  answer_scan-Answering none = notify-Answering _ _
  answer_scan-Answering (some []) = notify-Answering _ _
  answer_scan-Answering (some (addr ∷ addrs)) =
      search (>>=-Answering, choose-Answering, notify-Answering)

  pub try_method-Answering :
      (host : Host) (address : Bytes) (method : ℕ) (args : Option MethodArgs)
      → Answering env (Unit {0}) (try_method host address method args)
  unfolding try_method
  try_method-Answering host address method args =
      search (>>=-Answering, choose-Answering, notify-Answering, request_address-Answering)

  pub try_scan-Answering : (host : Host) → Answering env (Unit {0}) (try_scan host)
  unfolding try_scan
  try_scan-Answering host = search (>>=-Answering, answer_scan-Answering)
