-- ===== src/Client/Web/Notices.antt =====
-- The response to a request is the first notice that the callback gets.
use clip_share_desktop.Prelude.{
  ℕ, ◌≡◌, refl, Bool, true, false, List, [], ◌∷◌, ◌++◌, Bytes, take, arith,
}
use clip_share_desktop.World
use clip_share_desktop.World.{notified, Event, History, Env, World}
use clip_share_desktop.Client.Web.{Response, CallbackParams, callback_fn, called_back}

-- What the callback was told, from the first time to the last.
abbrev pub notices : History → List Response
notices [] = []
notices (notified status msg ∷ h) = notices h ++ ((status, msg) ∷ [])
notices (e ∷ h) = notices h

abbrev pub is_told : List Response → Bool
is_told [] = false
is_told (r ∷ told) = true

-- The flag is set with the first response, and no other follows.
pub record IsFirst (params : CallbackParams) (told : List Response) : Type 0 where
  pub queued : params.queued ≡ take 1 told
  pub called : params.called ≡ is_told told

callback_fn-IsFirst :
    (status : ℕ) (msg : Bytes) (params : CallbackParams) (told : List Response)
    → IsFirst params told
    → IsFirst (callback_fn status msg params) (told ++ ((status, msg) ∷ []))
callback_fn-IsFirst status msg params [] f = record {
  queued = ground (arith, f.queued, f.called);
  called = ground (arith, f.called);
}
callback_fn-IsFirst status msg params (r ∷ told) f = record {
  queued = ground (arith, f.queued, f.called);
  called = ground (arith, f.called);
}

pub called_back-IsFirst : (h : History) → IsFirst (called_back h) (notices h)
called_back-IsFirst [] = record { queued = refl; called = refl }
called_back-IsFirst (notified status msg ∷ h) =
    callback_fn-IsFirst status msg (called_back h) (notices h) (called_back-IsFirst h)
called_back-IsFirst (World.call c ∷ h) = called_back-IsFirst h
called_back-IsFirst (World.fread bs ∷ h) = called_back-IsFirst h
called_back-IsFirst (World.sent bs ∷ h) = called_back-IsFirst h
called_back-IsFirst (World.closed await ∷ h) = called_back-IsFirst h
called_back-IsFirst (World.logged ∷ h) = called_back-IsFirst h
called_back-IsFirst (World.pending_text s ∷ h) = called_back-IsFirst h
called_back-IsFirst (World.pending_files s ∷ h) = called_back-IsFirst h
called_back-IsFirst (World.opened ∷ h) = called_back-IsFirst h
called_back-IsFirst (World.shut ∷ h) = called_back-IsFirst h
called_back-IsFirst (World.clipboard_opened ∷ h) = called_back-IsFirst h
called_back-IsFirst (World.clipboard_emptied ∷ h) = called_back-IsFirst h
called_back-IsFirst (World.clipboard_closed ∷ h) = called_back-IsFirst h
