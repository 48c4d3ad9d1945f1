-- ===== src/Lib.antt =====
-- Verification of the ClipShare desktop client (the Linux build with TLS and the web client,
-- and the clipboard of the Windows build).
--
-- The client connects to a server over TCP or TLS, agrees on a version of the protocol, requests one
-- method, and sends or receives a text, files, an image or the server's information. What it receives
-- goes into the clipboard or into files; what it sends comes from there. The parts:
--   * Net: src/utils/net_utils.c, the loops of `read_sock` and `write_sock` and the 8-byte sizes. What
--     `recv`, `send`, `SSL_read` and `SSL_write` answer is a script, a list of segments and faults.
--     Children: Read, Write, Size.
--   * World and Action: the functions that return `EXIT_SUCCESS` or `EXIT_FAILURE` are actions, from an
--     environment and a world to a result and a world. The world has the socket's scripts and the
--     history, the events of what was done to the outside, latest first (`World.Trace` reads it). The
--     environment answers the calls of the C library, the file system and the clipboard, and may look
--     at the history. `callback->function(…)` is the event `notified`.
--   * Text: the string functions and `_convert_to_lf` of src/utils/utils.c, and `convert_eol` where
--     lines end in CRLF (Crlf), which works in place on a buffer.
--   * Proto: src/proto/selector.c (Selector: `handle_proto`), src/proto/versions.c (Versions) and the
--     codes of src/clients/status_cb.h (Status).
--   * Methods: src/proto/methods.c. Frame has the acknowledgements, TextData the text methods, Save
--     `save_file`, Receive `_get_files_dirs`, Send `_send_files_common`, Image the images and Info the
--     info method. `x_vN` is the definition `x` or `x_common` at the version N.
--   * Files: `_is_valid_fname` and the path of `_validate_and_save` (Name), `mkdirs` (Mkdirs),
--     `_recurse_dir` of src/utils/utils.c (Walk).
--   * Clipboard: `url_encode` and `url_decode` (Url), `set_clipboard_cut_files` (CutFiles),
--     `get_copied_type` and `get_copied_files_as_str` (Copied), `set_pending_clipboard_item` and the
--     temporary file (Pending), `get_copied_files` and `get_copied_dirs_files` (Listing).
--   * Config: the structure of src/utils/config.h, the parsers of src/utils/config.c (Numbers,
--     Servers for the files of servers and `validate_ipv4`, Parse for `parse_line` and `parse_conf`),
--     and `_apply_default_conf` of src/main.c (Defaults). `error_exit` is the result `exits`.
--   * List2: the growing array of src/utils/list_utils.c. Elsewhere an array is the list of its
--     elements, which is what `append` keeps of it (List2/Growth).
--   * Scan: src/clients/udp_scan.c. Replies has `scan_fn` and `udp_scan`, where the threads' rounds are
--     steps in any order, and Filter has `filter_addresses`.
--   * Connect: `connect_server` of src/utils/net_utils.c; what the kernel and OpenSSL answer to an
--     attempt is a record, `Dial`, with the static context before it and the peer's certificate. Tls has
--     `init_ssl_ctx` and what it calls.
--   * Client: src/clients/gui_client.c (Web: the callback, the handlers and, in Requests, the table
--     of the paths), src/clients/cli_client.c (Cli), src/utils/clipboard_listener.c with the loop of
--     src/utils/listener_linux.c (Listener). They connect, run `handle_proto` with their callback or
--     with none, and then set the clipboard to what is pending. `Host` is what they need besides
--     `Env`.
--   * Start: src/main.c and src/utils/kill_others.c. Options has `_parse_args`, Conf
--     `get_conf_file`, Kill `kill_other_processes`, and Launch `_change_working_dir` and `main`, whose
--     result says which processes there are and with which configuration.
--   * Windows: the functions of src/utils/utils.c that use the clipboard of Windows, with the text and
--     the copied files (Clipboard), the files of copied directories too, with the walk for wide strings
--     (Dirs), and the block of memory with the files to move (Cut).
--   * Tests: the theorems at concrete inputs.
--
-- Numbers are native naturals; an `int64_t` is `ℤ` with its bit pattern below 2 ^ 64, and the shifts of
-- `read_size` wrap at 2 ^ 64. A C string is the list of its bytes; where a buffer may hold a NUL,
-- `c_str` cuts it. A `char` is signed.
--
-- Fuel: `read_bytes` and `write_bytes` have one round for each byte and each element of the script,
-- `receive_contents` one for each byte of the file, `filter_addresses` and `keep_addresses` one for
-- each address, `server_lines` and `parse_lines` one for each byte of the file, and these are enough,
-- since every round takes one, but that of `server_lines` at an empty line, where the loop does not end
-- and the result is that of two more rounds, `exits`, or `hangs` where they are passed. `keep_allowed` has one round for each server, and `crlf_loop` counts
-- its index down. `recurse_dir` counts the levels down from 256, as the code bounds them. The loop of
-- `_transfer_regular_file` and the search for a free directory wait for the outside: `patience` bounds
-- their rounds, and running out is the result `stuck`. So is an overrun of a buffer, and a NULL that is
-- used.
--
-- Parameters: the fields of `Env`, `Sources`, `Host`, `Dial`, `UdpDial`, `Interface`, `Entry`,
-- `Machine`, `FileSystem`, `Answers` of OpenSSL, `Heap` and `Windows`, the last with the conversions
-- between UTF-8 and wide strings. `u8_check` of libunistring is `u8_valid`, xclip is `clipboard_text`,
-- `copied_files` and `copied_dirs_files`, where the last two stand for what Listing makes of xclip's
-- answers and the file system, and `inet_aton` is a field of `Sources`. The parsers of the
-- configuration, the walk and the lists of copied files assume that memory is not short. The
-- responses of libmicrohttpd are the list `queued`; its thread that sets the clipboard is run at
-- once, and the listener's threads one after the other.
--
-- Not modelled: the signals, the time that passes, the contents of certificates, libmicrohttpd and the
-- web page, xclip, the icon and menu, debug output, macOS, and of Windows what is not named above.
pub mod Prelude
pub mod Config
pub mod List2
pub mod Net
pub mod World
pub mod Action
pub mod Text
pub mod Proto
pub mod Clipboard
pub mod Files
pub mod Methods
pub mod Scan
pub mod Connect
pub mod Client
pub mod Start
pub mod Windows
pub mod Tests
