-- ===== src/Client/Web/Responses.antt =====
-- How many responses a request gets, and which.
use clip_share_desktop.Prelude.{
  ℕ, ◌≡◌, refl, ap, subst, ◌∙◌, Bool, true, false, Option, none, some, List, [], ◌∷◌, ◌++◌, Bytes,
  length, take, str_eq, codes, arith,
}
use clip_share_desktop.World.{History, Env, World}
use clip_share_desktop.Action.{Action, Result, ok, err, stuck, choose, continue, pure, ◌>>=◌, ◌>>◌}
use clip_share_desktop.Proto.Status.{MethodArgs}
use clip_share_desktop.Clipboard.Copied.{files_atom}
use clip_share_desktop.Clipboard.Pending.{
  Pending, nothing, text, files, pending, put_pending, set_item, set_pending_clipboard_item,
}
use clip_share_desktop.Client.Host.{Host}
use clip_share_desktop.Client.Web.{
  Response, called_back, try_method, handle_method, try_scan, handle_scan, with_callback,
}
use clip_share_desktop.Client.Web.Requests.{
  handled, queue, call_method, check_params, post, answer_to_connection, Query,
}
use clip_share_desktop.Client.Web.Notices.{notices, is_told, called_back-IsFirst}
use clip_share_desktop.Client.Web.Answering.{Answering, try_method-Answering, try_scan-Answering}

-- A request that comes to its end has been answered by the callback, or here, where the callback was
-- not called.
abbrev Replied : Result (Option Response) × World → Type 0
Replied (ok none, w) = is_told (notices w.history) ≡ true
Replied (ok (some r), w) = notices w.history ≡ []
Replied (err, w) = Unit
Replied (stuck, w) = Unit

handled-Replied :
    (m : Action (Unit {0})) (env : Env) (w : World)
    → Answering env (Unit {0}) m
    → Replied (handled (with_callback m) env w)
unfolding with_callback ◌>>=◌ pure
handled-Replied m env w h = let a = h.answers w in ground (arith)

abbrev Replying : Env → Action (Option Response) → Type 0
Replying env m = (w : World) → notices w.history ≡ [] → Replied (m env w)

choose-Replying :
    (env : Env) (test : Bool) (m n : Action (Option Response))
    → Replying env m
    → Replying env n
    → Replying env (choose test m n)
unfolding choose
choose-Replying env true m n hm hn = hm
choose-Replying env false m n hm hn = hn

method-Replying :
    (host : Host) (env : Env) (server : Bytes) (method : ℕ) (args : Option MethodArgs)
    → Replying env (handled (handle_method host server method args))
unfolding handle_method
method-Replying host env server method args w h =
    handled-Replied (try_method host server method args) env w
      (try_method-Answering env host server method args)

queue-Replying : (env : Env) (status : ℕ) (body : Bytes) → Replying env (queue status body)
unfolding pure
queue-Replying env status body w h = h

call_method-Replying :
    (host : Host) (env : Env) (url server : Bytes) (display : ℕ)
    → Replying env (call_method host url server display)
unfolding call_method
call_method-Replying host env url server display =
    search (choose-Replying env, method-Replying host env, queue-Replying env) depth 12

check_params-Replying :
    (host : Host) (env : Env) (url : Bytes) (server : Option Bytes) (display : Option ℕ)
    → Replying env (check_params host url server display)
unfolding check_params
check_params-Replying host env url none display = queue-Replying env 400 []
check_params-Replying host env url (some server) none = queue-Replying env 400 []
check_params-Replying host env url (some server) (some display) =
    call_method-Replying host env url server display

-- Setting the clipboard tells the callback nothing.
put_pending-quiet :
    (atom s : Bytes) (env : Env) (w : World)
    → notices (put_pending atom s env w).1.history ≡ notices w.history
unfolding put_pending
put_pending-quiet atom s env w = ground arith

put_pending-ok : (atom s : Bytes) (env : Env) (w : World) → (put_pending atom s env w).0 ≡ ok tt
unfolding put_pending
put_pending-ok atom s env w = ground arith

set_item-ok : (item : Pending) (env : Env) (w : World) → (set_item item env w).0 ≡ ok tt
unfolding set_item
set_item-ok nothing env w = refl
set_item-ok (text s) env w = put_pending-ok [] s env w
set_item-ok (files s) env w = put_pending-ok files_atom s env w

set_item-quiet :
    (item : Pending) (env : Env) (w : World)
    → notices (set_item item env w).1.history ≡ notices w.history
unfolding set_item
set_item-quiet nothing env w = refl
set_item-quiet (text s) env w = put_pending-quiet [] s env w
set_item-quiet (files s) env w = put_pending-quiet files_atom s env w

set_pending-quiet :
    (env : Env) (w : World)
    → notices (set_pending_clipboard_item env w).1.history ≡ notices w.history
unfolding set_pending_clipboard_item
set_pending-quiet env w = ground (arith, set_item-quiet (pending w.history) env w)

set_pending-ok : (env : Env) (w : World) → (set_pending_clipboard_item env w).0 ≡ ok tt
unfolding set_pending_clipboard_item
set_pending-ok env w = ground (arith, set_item-ok (pending w.history) env w)

-- Setting the clipboard behind a request.
settled-Replied :
    (r : Result (Option Response)) (w : World) (env : Env)
    → Replied (r, w)
    → Replied (continue r (λ r. set_pending_clipboard_item >> pure r) env w)
unfolding ◌>>=◌ pure
settled-Replied (ok none) w env h = ground (arith, set_pending-quiet env w, set_pending-ok env w)
settled-Replied (ok (some r)) w env h =
    ground (arith, set_pending-quiet env w, set_pending-ok env w)
settled-Replied err w env h = tt
settled-Replied stuck w env h = tt

settled-Replying :
    (m : Action (Option Response)) (env : Env)
    → Replying env m
    → Replying env (m >>= (λ r. set_pending_clipboard_item >> pure r))
unfolding ◌>>=◌
settled-Replying m env h w q = settled-Replied (m env w).0 (m env w).1 env (h w q)

scan-Replying : (host : Host) (env : Env) → Replying env (handled (handle_scan host))
unfolding handle_scan
scan-Replying host env w h = handled-Replied (try_scan host) env w (try_scan-Answering env host)

route-Replying :
    (host : Host) (env : Env) (url : Bytes) (query : Query)
    → Replying env (
        choose
          (str_eq url (codes "/scan"))
          (handled (handle_scan host))
          (check_params host url query.server query.display))
route-Replying host env url query =
    search (choose-Replying env, scan-Replying host env, check_params-Replying host env)

post-Replying :
    (host : Host) (env : Env) (url : Bytes) (query : Option Query)
    → Replying env (post host url query)
unfolding post
post-Replying host env url none = λ w h. tt
post-Replying host env url (some query) =
    settled-Replying
      (choose (str_eq url (codes "/scan")) (handled (handle_scan host))
        (check_params host url query.server query.display))
      env (route-Replying host env url query)

answer-Replying :
    (host : Host) (url method : Bytes) (args : List (Bytes × Option Bytes)) (env : Env)
    → Replying env (answer_to_connection host url method args)
unfolding answer_to_connection
answer-Replying host url method args env =
    search (choose-Replying env, post-Replying host env, queue-Replying env)

-- What libmicrohttpd has queued for the request at its end.
abbrev pub responses : Option Response → History → List Response
responses none h = (called_back h).queued
responses (some r) h = r ∷ (called_back h).queued

-- The response that is queued here, if there is one.
abbrev pub direct : Option Response → List Response
direct none = []
direct (some r) = r ∷ []

take-told : (told : List Response) → is_told told ≡ true → length (take 1 told) ≡ 1
take-told [] h = absurd (ground arith)
take-told (r ∷ told) h = refl

one_response :
    (r : Option Response) (w : World)
    → Replied (ok r, w)
    → (responses r w.history ≡ take 1 (direct r ++ notices w.history))
      × (length (responses r w.history) ≡ 1)
one_response none w h =
    let f = called_back-IsFirst w.history in
    (f.queued, ap length f.queued ∙ take-told (notices w.history) h)
one_response (some r) w h =
    let f = called_back-IsFirst w.history in
    let e : (called_back w.history).queued ≡ [] = f.queued ∙ ap (take 1) h in
    (ap (λ q. r ∷ q) e, ap (λ q. length (r ∷ q)) e)

-- Every request of the web page that comes to its end gets exactly one response, whatever its URL,
-- its method and its parameters are and whatever the server says: the one that is queued for a page
-- or for an error of the request, or else the first notice that the callback got.
pub answer_to_connection-one_response :
    (host : Host) (url method : Bytes) (args : List (Bytes × Option Bytes)) (env : Env) (w : World)
    (r : Option Response)
    → notices w.history ≡ []
    → (answer_to_connection host url method args env w).0 ≡ ok r
    → let h = (answer_to_connection host url method args env w).1.history in
      (responses r h ≡ take 1 (direct r ++ notices h)) × (length (responses r h) ≡ 1)
answer_to_connection-one_response host url method args env w r q e =
    one_response r (answer_to_connection host url method args env w).1 (
      subst (λ x. Replied (x, (answer_to_connection host url method args env w).1)) e
        (answer-Replying host url method args env w q))
