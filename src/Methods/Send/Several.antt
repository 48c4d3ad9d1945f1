-- ===== src/Methods/Send/Several.antt =====
-- `_send_files_common` from version 2 on: several files and empty directories on the wire.
use clip_share_desktop.Prelude.{
  ℕ, ◌≤◌, ◌<◌, ◌≡◌, ◌≢◌, refl, sym, ap, ◌∙◌, Bool, true, false, ◌||◌, ◌&&◌, none, some, List, [],
  ◌∷◌, ◌++◌, Bytes, length, ℤ, pos, negsuc, arith, append_assoc, append-nil, All, ltb, leb, ◌==◌,
}
use mathlib.Core.Path.{subst}
use clip_share_desktop.Net.{SockType, null_sock, Recv, size_bytes}
use clip_share_desktop.Net.Write.{write_bytes-idle}
use clip_share_desktop.World.{Env, World, History, call, open_read, sent}
use clip_share_desktop.World.Trace.{wire}
use clip_share_desktop.Action.{
  Action, Result, ok, continue, notify, or_reject, send_size, ◌>>=◌, ◌>>◌,
}
use clip_share_desktop.Action.Healthy.{on}
use clip_share_desktop.Proto.Status.{resp_ok, resp_communication_failure}
use clip_share_desktop.Methods.TextData.{finish_sending}
use clip_share_desktop.Methods.TextData.Sending.{Acknowledges}
use clip_share_desktop.Methods.Save.{above}
use clip_share_desktop.Methods.Send.{
  transfer_regular_file, transfer_directory, without_last_sep, sent_name, transfer_single_file,
  transfer_files, send_list,
}
use clip_share_desktop.Methods.Send.Contents.{IsFile, SentAll}
use clip_share_desktop.Methods.Send.File.{file_bytes, transfer_regular_file-SentAll}

-- What is sent: a file with its path and content, or an empty directory with its path and the name that
-- is sent for it.
pub data Item : Type 0 where
  a_file a_dir : Bytes → Bytes → Item

abbrev pub item_path : Item → Bytes
item_path (a_file path content) = path
item_path (a_dir path dir) = path

abbrev pub item_bytes : ℕ → Item → Bytes
item_bytes path_len (a_file path content) = file_bytes (sent_name 2 path path_len) content
item_bytes path_len (a_dir path dir) =
    size_bytes (pos (length dir)) ++ (dir ++ size_bytes (negsuc 0))

abbrev pub item_paths : List Item → List Bytes
item_paths [] = []
item_paths (item ∷ items) = item_path item ∷ item_paths items

abbrev pub all_bytes : ℕ → List Item → Bytes
all_bytes path_len [] = []
all_bytes path_len (item ∷ items) = item_bytes path_len item ++ all_bytes path_len items

-- The name within its limits.
abbrev pub HasName : Bytes → Type 0
HasName name = (0 < length name) × (length name ≤ 2048)

-- A file that can be opened whenever it is tried, keeps its size, and is within the limits.
pub record Ready (env : Env) (auto : Bool) (path content : Bytes) : Type 0 where
  pub file : IsFile env path content
  pub opens : (h : History) → env.answer h (open_read path) ≡ true
  pub size : (h : History) → env.file_size (call (open_read path) ∷ h) path ≡ pos (length content)
  pub allowed :
      (above (pos (length content)) env.config.max_file_size
        || auto && above (pos (length content)) env.config.auto_send_max_file_size)
      ≡ false
  pub patience : length content ≤ env.patience

abbrev pub IsSendable : Env → Bool → ℕ → Item → Type 0
IsSendable env auto path_len (a_file path content) =
    HasName (sent_name 2 path path_len)
    × (without_last_sep (sent_name 2 path path_len) ≡ none)
    × Ready env auto path content
IsSendable env auto path_len (a_dir path dir) =
    HasName (sent_name 2 path path_len) × (without_last_sep (sent_name 2 path path_len) ≡ some dir)

module _ (env : Env) (version : ℕ) (auto : Bool) (path_len : ℕ) (new : 2 ≤ version)
    (old : version ≤ 4) where
  as_dir :
      (path dir : Bytes) (w : World)
      → HasName (sent_name 2 path path_len)
      → without_last_sep (sent_name 2 path path_len) ≡ some dir
      → transfer_single_file version path path_len auto env w ≡ transfer_directory dir env w
  unfolding transfer_single_file
  as_dir path dir w n e = ground arith

  as_file :
      (path : Bytes) (w : World)
      → HasName (sent_name 2 path path_len)
      → without_last_sep (sent_name 2 path path_len) ≡ none
      → transfer_single_file version path path_len auto env w
        ≡ transfer_regular_file path (sent_name 2 path path_len) auto env w
  unfolding transfer_single_file
  as_file path w n e = ground arith

  module _ (kind : SockType) (s : List Recv) where
    directory-SentAll :
        (dir : Bytes) (h : History)
        → SentAll kind s h
            (size_bytes (pos (length dir)) ++ (dir ++ size_bytes (negsuc 0)))
            (transfer_directory dir env (on kind s h))
    unfolding transfer_directory
    directory-SentAll dir h = record {
      history = sent (size_bytes (negsuc 0)) ∷ sent dir ∷ sent (size_bytes (pos (length dir))) ∷ h;
      runs = ground (
        arith,
        write_bytes-idle kind (size_bytes (pos (length dir))),
        write_bytes-idle kind dir,
        write_bytes-idle kind (size_bytes (negsuc 0)),
      );
      all = simp append_assoc;
    }

    item-SentAll :
        (item : Item) (h : History)
        → IsSendable env auto path_len item
        → SentAll kind s h
            (item_bytes path_len item)
            (transfer_single_file version (item_path item) path_len auto env (on kind s h))
    item-SentAll (a_file path content) h (n, e, r) =
        subst (SentAll kind s h (item_bytes path_len (a_file path content)))
          (sym (as_file path (on kind s h) n e))
          (transfer_regular_file-SentAll env path (sent_name 2 path path_len) content auto kind s h
            r.file (r.opens h) (r.size h) r.allowed r.patience)
    item-SentAll (a_dir path dir) h (n, e) =
        subst (SentAll kind s h (item_bytes path_len (a_dir path dir)))
          (sym (as_dir path dir (on kind s h) n e)) (directory-SentAll dir h)

    continue-SentAll :
        (h : History) (bs more : Bytes) (r : Result (Unit {0}) × World) (m : Action (Unit {0}))
        → SentAll kind s h bs r
        → ((h' : History) → SentAll kind s h' more (m env (on kind s h')))
        → SentAll kind s h (bs ++ more) (continue r.0 (λ u. m) env r.1)
    continue-SentAll h bs more r m a k =
        let b : SentAll kind s a.history more (m env (on kind s a.history)) = k a.history in
        record {
          history = b.history;
          runs = ap (λ r. continue r.0 (λ u. m) env r.1) a.runs ∙ b.runs;
          all = b.all ∙ ap (λ x. x ++ more) a.all ∙ append_assoc (wire h) bs more;
        }

    items-SentAll :
        (items : List Item) (h : History)
        → All (IsSendable env auto path_len) items
        → SentAll kind s h
            (all_bytes path_len items)
            (transfer_files version (item_paths items) path_len auto env (on kind s h))
    unfolding transfer_files ◌>>=◌
    items-SentAll [] h a = record { history = h; runs = refl; all = sym (append-nil (wire h)) }
    items-SentAll (item ∷ items) h (a, more) =
        continue-SentAll h (item_bytes path_len item) (all_bytes path_len items)
          (transfer_single_file version (item_path item) path_len auto env (on kind s h))
          (transfer_files version (item_paths items) path_len auto) (item-SentAll item h a)
          (λ h'. items-SentAll items h' more)

    ending :
        (h : History)
        → kind ≢ null_sock
        → Acknowledges version kind s
        → ((do notify resp_ok; finish_sending version) env (on kind s h)).0 ≡ ok tt
          × wire ((do notify resp_ok; finish_sending version) env (on kind s h)).1.history ≡ wire h
    unfolding finish_sending
    ending h o ack = (ground arith, ground arith)

    size-sent :
        (z : ℤ) (h : History)
        → or_reject resp_communication_failure (send_size z) env (on kind s h)
          ≡ (ok tt, on kind s (sent (size_bytes z) ∷ h))
    unfolding or_reject send_size
    size-sent z h = ground (arith, write_bytes-idle kind (size_bytes z))

    counted :
        (paths : List Bytes) (h : History)
        → 0 < length paths
        → length paths < 0xFFFFFFFF
        → (auto && ltb env.config.auto_send_max_files (length paths)) ≡ false
        → send_list version paths path_len auto env (on kind s h)
          ≡ (do transfer_files version paths path_len auto; notify resp_ok; finish_sending version)
              env
              (on kind s (sent (size_bytes (pos (length paths))) ∷ h))
    unfolding send_list
    counted paths h some_path few limit =
        let room : (length paths == 0 || leb 0xFFFFFFFF (length paths)) ≡ false = ground arith in
        let counts : ltb 1 version ≡ true = ground arith in
        let several : (version == 1) ≡ false = ground arith in
        rw (send_list, room, limit, counts, several)
          (ap
            (λ (r : Result (Unit {0}) × World).
              continue r.0
                (λ u. do
                  transfer_files version paths path_len auto
                  notify resp_ok
                  finish_sending version)
                env r.1)
            (size-sent (pos (length paths)) h))

-- From version 2 on, files and empty directories that can be sent are all sent, in order: first their
-- number, and then of each file its name and its content behind their lengths, and of each empty
-- directory its name and the size -1. Nothing else is sent, and the method succeeds, in version 4 behind
-- the peer's acknowledgement.
pub send_list-sent :
    (env : Env) (version : ℕ) (auto : Bool) (path_len : ℕ) (items : List Item) (kind : SockType)
    (s : List Recv) (h : History)
    → 2 ≤ version
    → version ≤ 4
    → All (IsSendable env auto path_len) items
    → 0 < length (item_paths items)
    → length (item_paths items) < 0xFFFFFFFF
    → (auto && ltb env.config.auto_send_max_files (length (item_paths items))) ≡ false
    → kind ≢ null_sock
    → Acknowledges version kind s
    → ((send_list version (item_paths items) path_len auto env (on kind s h)).0 ≡ ok tt)
      × (wire (send_list version (item_paths items) path_len auto env (on kind s h)).1.history
          ≡ wire h ++ (size_bytes (pos (length (item_paths items))) ++ all_bytes path_len items))
unfolding ◌>>=◌
send_list-sent env version auto path_len items kind s h new old a some_item few limit o ack =
    let count = size_bytes (pos (length (item_paths items))) in
    let t : SentAll kind s (sent count ∷ h) (all_bytes path_len items)
        (transfer_files version (item_paths items) path_len auto env (on kind s (sent count ∷ h))) =
      items-SentAll env version auto path_len new old kind s items (sent count ∷ h) a in
    let run : send_list version (item_paths items) path_len auto env (on kind s h)
        ≡ (do notify resp_ok; finish_sending version) env (on kind s t.history) =
      counted env version auto path_len new old kind s (item_paths items) h some_item few limit
      ∙ ap
          (λ (r : Result (Unit {0}) × World).
            continue r.0 (λ u. do notify resp_ok; finish_sending version) env r.1)
          t.runs in
    let (well, quiet) = ending env version auto path_len new old kind s t.history o ack in
    (
      ap (λ (r : Result (Unit {0}) × World). r.0) run ∙ well,
      ap (λ (r : Result (Unit {0}) × World). wire r.1.history) run
          ∙ quiet
          ∙ t.all
          ∙ append_assoc (wire h) count (all_bytes path_len items),
    )
