-- ===== src/World.antt =====
-- What a protocol handler works on: the socket, the callback, and the operating system with the
-- clipboard. Everything that the program does to the outside is an event of the history, latest
-- first, and what it is told may depend on that history.
pub mod Trace
use clip_share_desktop.Prelude.{ℕ, Option, Bool, List, Bytes, ℤ}
use clip_share_desktop.Config.{Config}
use clip_share_desktop.Net.{SockType, Recv, Send}

-- A request to the C library, the kernel or the clipboard that succeeds or fails.
pub data Call : Type 0 where
  -- `access(path, F_OK) == 0`
  exists : Bytes → Call
  -- `lstat` says that the path is a directory
  is_dir : Bytes → Call
  make_dir : Bytes → Call
  -- `fopen(path, "wb")` and `fopen(path, "rb")`
  create : Bytes → Call
  open_read : Bytes → Call
  -- `fwrite` took all the bytes
  write_file : Bytes → Bytes → Call
  remove : Bytes → Call
  rename : Bytes → Bytes → Call
  remove_dir : Bytes → Call
  -- `open(path, O_CREAT)` and `close`
  touch : Bytes → Call
  -- `xclip_util(XCLIP_IN, atom, …)`
  put_clipboard : Bytes → Bytes → Call
  -- on Windows: `OpenClipboard`, `IsClipboardFormatAvailable`, `GetClipboardData`, `GlobalAlloc`,
  -- `GlobalLock`, and `SetClipboardData` with what the memory holds
  open_clipboard : Call
  has_format : ℕ → Call
  get_data : ℕ → Call
  global_alloc : ℕ → Call
  global_lock : Call
  set_data : ℕ → List ℕ → Call
  -- `pthread_create`
  start_thread : Call
  -- `malloc` of so many bytes
  alloc : ℕ → Call

pub data Event : Type 0 where
  call : Call → Event
  -- one `fread`
  fread : Bytes → Event
  -- bytes that left by the socket, and the end of the socket with `await`
  sent : Bytes → Event
  closed : Bool → Event
  -- a call of the status callback: status, message
  notified : ℕ → Bytes → Event
  -- `error(msg)`
  logged : Event
  -- `pending_data` was set, as text or as cut files
  pending_text : Bytes → Event
  pending_files : Bytes → Event
  -- `socket` gave a TCP socket, and `close_sock` took it back
  opened shut : Event
  -- on Windows: the clipboard is open for this process, emptied, and closed again
  clipboard_opened clipboard_emptied clipboard_closed : Event

abbrev pub History : Type 0
History = List Event

-- What the outside answers. `u8_valid` is `u8_check` of libunistring.
pub record Env : Type 0 where
  pub config : Config
  pub has_callback : Bool
  pub cwd : Bytes
  pub u8_valid : Bytes → Bool
  pub answer : History → Call → Bool
  -- how many rounds a loop that waits for the outside is given
  pub patience : ℕ
  pub millis : History → ℕ
  pub fresh_id : History → ℕ
  -- `get_clipboard_text`, `get_copied_files`, and `get_copied_dirs_files` with its `path_len`
  pub clipboard_text : History → Option Bytes
  pub copied_files : History → Option (List Bytes)
  pub copied_dirs_files : Bool → History → Option (List Bytes) × ℕ
  -- `get_file_size` of an open file, and what the next `fread` of so many bytes returns
  pub file_size : History → Bytes → ℤ
  pub file_data : History → Bytes → ℕ → Bytes
  -- `list_dir`
  pub entries : History → Bytes → Option (List Bytes)

pub record World : Type 0 where
  pub socket : SockType
  pub inbound : List Recv
  pub outbound : List Send
  pub history : History
