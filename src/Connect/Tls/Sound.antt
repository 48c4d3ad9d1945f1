-- ===== src/Connect/Tls/Sound.antt =====
-- The contexts that there are, and the objects that are given back.
use clip_share_desktop.Prelude.{
  ℕ, ◌+◌, ◌≡◌, refl, Bool, true, false, not, ◌&&◌, Option, none, some, List, [], ◌∷◌, if◌then◌else◌,
  arith, ◌==◌,
}
use clip_share_desktop.Connect.Tls.{
  Object, bio, p12, key, client_x509, cabio, ca_x509, context, TlsEvent, made, freed, Context, Tls,
  Answers, load_ca, load_ssl_cert, clear_ssl_ctx, after_load, new_context, init_ssl_ctx, Step,
  connects, ends, Steps, unused, next,
}

abbrev pub code : Object → ℕ
code bio = 0
code p12 = 1
code key = 2
code client_x509 = 3
code cabio = 4
code ca_x509 = 5
code context = 6

abbrev pub makes : Object → List TlsEvent → ℕ
makes o [] = 0
makes o (made p ∷ es) = (if code p == code o then 1 else 0) + makes o es
makes o (freed p ∷ es) = makes o es

abbrev pub frees : Object → List TlsEvent → ℕ
frees o [] = 0
frees o (made p ∷ es) = frees o es
frees o (freed p ∷ es) = (if code p == code o then 1 else 0) + frees o es

-- How many of the objects are in use: the context, while there is one.
abbrev pub live : Object → Option Context → ℕ
live o none = 0
live o (some c) = if code o == 6 then 1 else 0

-- A context has all that `load_ssl_cert` sets.
abbrev pub IsComplete : Option Context → Type 0
IsComplete none = Unit
IsComplete (some c) =
    (c.min_tls12 ≡ true) × (c.has_cert ≡ true) × (c.has_ca ≡ true) × (c.verifies_peer ≡ true)

pub record IsSound (t : Tls) : Type 0 where
  pub complete : IsComplete t.ctx
  pub balanced : (o : Object) → makes o t.events ≡ frees o t.events + live o t.ctx

after_load-balanced :
    (a : Answers) (es : List TlsEvent) (o : Object)
    → makes o es ≡ frees o es
    → let t = after_load (load_ssl_cert a new_context (made context ∷ es)) in
      makes o t.events ≡ frees o t.events + live o t.ctx
unfolding load_ssl_cert load_ca
after_load-balanced a es bio h = ground arith
after_load-balanced a es p12 h = ground arith
after_load-balanced a es key h = ground arith
after_load-balanced a es client_x509 h = ground arith
after_load-balanced a es cabio h = ground arith
after_load-balanced a es ca_x509 h = ground arith
after_load-balanced a es context h = ground arith

after_load-IsSound :
    (a : Answers) (es : List TlsEvent)
    → ((o : Object) → makes o es ≡ frees o es)
    → IsSound (after_load (load_ssl_cert a new_context (made context ∷ es)))
unfolding load_ssl_cert load_ca
after_load-IsSound a es h = record {
  complete = ground arith;
  balanced = λ o. after_load-balanced a es o (h o);
}

abbrev tls : Option Context → List TlsEvent → Tls
tls ctx es = record { ctx = ctx; events = es }

created-IsSound :
    (can : Bool) (a : Answers) (es : List TlsEvent)
    → IsSound (tls none es)
    → IsSound (
        if not can
        then tls none es
        else after_load (load_ssl_cert a new_context (made context ∷ es)))
created-IsSound false a es s = s
created-IsSound true a es s = after_load-IsSound a es (λ o. omega (arith, s.balanced o))

init_ssl_ctx-IsSound :
    (a : Answers) (ctx : Option Context) (es : List TlsEvent)
    → IsSound (tls ctx es)
    → IsSound (init_ssl_ctx a (tls ctx es))
unfolding init_ssl_ctx
init_ssl_ctx-IsSound a none es s = created-IsSound (a.method && a.ctx_made) a es s
init_ssl_ctx-IsSound a (some c) es s = s

clear-balanced :
    (c : Context) (es : List TlsEvent) (o : Object)
    → makes o es ≡ frees o es + live o (some c)
    → makes o (freed context ∷ es) ≡ frees o (freed context ∷ es) + live o none
clear-balanced c es o h = ground arith

clear_ssl_ctx-IsSound :
    (ctx : Option Context) (es : List TlsEvent)
    → IsSound (tls ctx es)
    → IsSound (clear_ssl_ctx (tls ctx es))
unfolding clear_ssl_ctx
clear_ssl_ctx-IsSound none es s = s
clear_ssl_ctx-IsSound (some c) es s = record {
  complete = tt;
  balanced = λ o. clear-balanced c es o (s.balanced o);
}

Step-IsSound : {t u : Tls} → Step t u → IsSound t → IsSound u
Step-IsSound {t} (connects a) s = init_ssl_ctx-IsSound a t.ctx t.events s
Step-IsSound {t} ends s = clear_ssl_ctx-IsSound t.ctx t.events s

-- However the connections go and whatever OpenSSL answers, a context that there is for the next one has
-- TLS 1.2 as its oldest version, both certificates and the verification of the peer, and of each kind of
-- object as many were given back as were made, but for the context in use.
pub Steps-IsSound : {t : Tls} → Steps t → IsSound t
Steps-IsSound unused = record { complete = tt; balanced = λ o. refl }
Steps-IsSound (next steps step) = Step-IsSound step (Steps-IsSound steps)
