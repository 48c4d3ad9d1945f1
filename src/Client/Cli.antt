-- ===== src/Client/Cli.antt =====
-- clients/cli_client.c: the commands of the command line. What is printed on the standard output is the
-- list of its lines; the messages on the error output are left out.
pub mod Commands
pub mod Texts
use clip_share_desktop.Prelude.{
  ℕ, zero, suc, Bool, true, false, ◌&&◌, Option, none, some, List, [], ◌∷◌, ◌++◌, Bytes, take, ltb,
  ◌==◌, if◌then◌else◌, codes,
}
use clip_share_desktop.Config.Servers.{Sources, ipv4_aton}
use clip_share_desktop.World.{Env}
use clip_share_desktop.Action.{
  Action, pure, asks, choose, attempt, ◌>>=◌, ◌>>◌, close_socket_no_wait, close_socket_await,
}
use clip_share_desktop.Proto.Status.{
  MethodArgs, no_args, method_get_text, method_send_text, method_get_file, method_send_file,
  method_get_image, method_get_copied_image, method_get_screenshot, method_info,
}
use clip_share_desktop.Proto.Selector.{handle_proto}
use clip_share_desktop.Connect.{connect_server, is_null_sock}
use clip_share_desktop.Clipboard.Copied.{CopiedType, copied_none, copied_text, copied_file}
use clip_share_desktop.Clipboard.Pending.{set_pending_clipboard_item}
use clip_share_desktop.Client.Host.{Host, copied_type, display_of}

-- `strncmp(a, b, n) == 0`
unfoldable pub strncmp_eq : ℕ → Bytes → Bytes → Bool
strncmp_eq zero a b = true
strncmp_eq (suc n) [] [] = true
strncmp_eq (suc n) [] (d ∷ b) = false
strncmp_eq (suc n) (c ∷ a) [] = false
strncmp_eq (suc n) (c ∷ a) (d ∷ b) = c == d && strncmp_eq n a b

abbrev pub command_scan : ℕ
command_scan = 126

abbrev pub command_get_text : ℕ
command_get_text = 1

abbrev pub command_send_text : ℕ
command_send_text = 2

abbrev pub command_get_files : ℕ
command_get_files = 3

abbrev pub command_send_files : ℕ
command_send_files = 4

abbrev pub command_get_image : ℕ
command_get_image = 5

abbrev pub command_get_copied_image : ℕ
command_get_copied_image = 6

abbrev pub command_get_screenshot : ℕ
command_get_screenshot = 7

abbrev pub command_info : ℕ
command_info = 125

-- The chain of `_parse_args` on the first three characters of the command; 0 is no command.
unfoldable pub command_of : Bytes → ℕ
unfolding strncmp_eq
command_of name =
    let cmd = take 3 name in
    if strncmp_eq 3 cmd (codes "sc")
    then command_scan
    else if strncmp_eq 2 cmd (codes "g")
    then command_get_text
    else if strncmp_eq 2 cmd (codes "s")
    then command_send_text
    else if strncmp_eq 3 cmd (codes "fg")
    then command_get_files
    else if strncmp_eq 3 cmd (codes "fs")
    then command_send_files
    else if strncmp_eq 2 cmd (codes "i")
    then command_get_image
    else if strncmp_eq 3 cmd (codes "ic")
    then command_get_copied_image
    else if strncmp_eq 3 cmd (codes "is")
    then command_get_screenshot
    else if strncmp_eq 3 cmd (codes "in")
    then command_info
    else 0

-- `*command_p` with what else is set: 0 is `invalid`.
pub data Parsed : Type 0 where
  invalid scan_command : Parsed
  method_command : ℕ → ℕ → MethodArgs → Parsed

-- The display of a screenshot.
abbrev pub set_display : ℕ → ℕ → Option ℕ → Parsed
set_display command addr none = invalid
set_display command addr (some display) = method_command command addr (record { display = display })

-- The third argument, which only the screenshot looks at.
unfoldable pub with_display : ℕ → ℕ → List Bytes → Parsed
unfolding display_of
with_display command addr [] = method_command command addr no_args
with_display command addr ([] ∷ rest) = method_command command addr no_args
with_display command addr ((c ∷ s) ∷ rest) =
    if command == command_get_screenshot
    then set_display command addr (display_of (c ∷ s))
    else method_command command addr no_args

unfoldable pub with_server : Sources → ℕ → List Bytes → Parsed
unfolding ipv4_aton with_display
with_server src command [] = invalid
with_server src command (server ∷ rest) = elim (ipv4_aton src server) [
  | none ↦ invalid
  | some addr ↦ with_display command addr rest
]

-- `argv` begins with the command.
unfoldable pub parse_args : Sources → List Bytes → Parsed
unfolding command_of with_server
parse_args src [] = invalid
parse_args src (name ∷ argv) =
    let command = command_of name in
    if command == command_scan
    then scan_command
    else if command == 0
    then invalid
    else with_server src command argv

-- Runs with no callback.
abbrev pub without_callback_fn : Env → Env
without_callback_fn env = record env { has_callback = false }

unfoldable pub without_callback : {A : Type 0} → Action A → Action A
without_callback m env w = m (without_callback_fn env) w

abbrev pub succeeded : Option (Unit {0}) → Bool
succeeded none = false
succeeded (some u) = true

-- With the connection: did the method succeed?
unfoldable pub run_connected : ℕ → Option MethodArgs → Action Bool
unfolding ◌>>=◌ pure attempt handle_proto close_socket_await without_callback
run_connected method args = do
  r ← attempt (without_callback (handle_proto method args))
  close_socket_no_wait
  pure (succeeded r)

-- `_invoke_method`, which says itself where there is no connection.
unfoldable pub invoke_method : Host → ℕ → ℕ → Option MethodArgs → Action (Bool × List Bytes)
unfolding ◌>>=◌ pure choose connect_server is_null_sock run_connected
invoke_method host addr method args = do
  connect_server host.dial addr
  failed ← is_null_sock
  choose failed (pure (false, codes "Couldn't connect" ∷ []))
      (do done ← run_connected method args; pure (done, []))

abbrev suffix : Bool → Bytes
suffix true = codes " done"
suffix false = codes " failed!"

abbrev pub report : Bytes → Bool × List Bytes → List Bytes
report title (done, printed) = printed ++ (title ++ suffix done) ∷ []

-- `_get_text`, `_get_files` and so on: the method, and what is printed of it.
unfoldable pub run_get : Host → Bytes → ℕ → ℕ → Option MethodArgs → Action (List Bytes)
unfolding ◌>>=◌ pure invoke_method
run_get host title addr method args = do
  r ← invoke_method host addr method args
  pure (report title r)

abbrev pub is_text : CopiedType → Bool
is_text copied_text = true
is_text _ = false

abbrev pub is_file : CopiedType → Bool
is_file copied_file = true
is_file _ = false

-- `_send_text` and `_send_files`, which first look at what is copied.
unfoldable pub run_send : Host → Bytes → Bytes → (CopiedType → Bool) → ℕ → ℕ → Action (List Bytes)
unfolding ◌>>=◌ pure choose copied_type run_get
run_send host title missing test addr method = do
  copied ← copied_type host
  choose (test copied) (run_get host title addr method none)
      (pure ((title ++ codes " failed! - " ++ missing) ∷ []))

-- The cases of the switch that run a method. No other code is parsed.
unfoldable pub run_command : Host → ℕ → ℕ → MethodArgs → Action (List Bytes)
unfolding pure choose run_get run_send
run_command host command addr args =
    choose (command == command_get_text) (run_get host (codes "Get text") addr method_get_text none)
      (choose (command == command_send_text)
        (run_send host (codes "Send text") (codes "No text copied") is_text addr method_send_text)
        (choose (command == command_get_files)
          (run_get host (codes "Get files") addr method_get_file none)
          (choose (command == command_send_files)
            (run_send host (codes "Send files") (codes "No files copied") is_file addr
              method_send_file)
            (choose (command == command_get_image)
              (run_get host (codes "Get image") addr method_get_image none)
              (choose (command == command_get_copied_image)
                (run_get host (codes "Get copied image") addr method_get_copied_image none)
                (choose (command == command_get_screenshot)
                  (run_get host (codes "Get screenshot") addr method_get_screenshot (some args))
                  (choose (command == command_info)
                    (run_get host (codes "Info check") addr method_info none) (pure []))))))))

-- The end of the process: the lines, or `exit(EXIT_FAILURE)`.
pub data Ended : Type 0 where
  returned : List Bytes → Ended
  exited : Ended

abbrev pub net_scan : Option (List Bytes) → Ended
net_scan none = exited
net_scan (some servers) = returned servers

-- The switch of `cli_client`.
unfoldable pub run_parsed : Host → Parsed → Action Ended
unfolding ◌>>=◌ pure asks run_command
run_parsed host invalid = pure exited
run_parsed host scan_command = asks (λ env h. net_scan (host.scanned h))
run_parsed host (method_command command addr args) = do
  lines ← run_command host command addr args
  pure (returned lines)

-- Where something is pending, this process or its child sets the clipboard.
abbrev pub finish : Ended → Action Ended
finish exited = pure exited
finish (returned lines) = do set_pending_clipboard_item; pure (returned lines)

unfoldable pub cli_client : Host → List Bytes → Action Ended
unfolding ◌>>=◌ pure parse_args run_parsed set_pending_clipboard_item
cli_client host argv = do ended ← run_parsed host (parse_args host.sources argv); finish ended
