-- ===== src/Tests/Platform.antt =====
-- The TLS context, and the Windows variants: a clipboard with a text and two files, and the conversion of
-- a text's line ends.
use clip_share_desktop.Prelude.{
  ◌+◌, ◌*◌, ◌≡◌, refl, Bool, true, false, Option, none, some, List, [], ◌∷◌, ◌++◌, Bytes, length,
  str_eq, if◌then◌else◌, codes, arith,
}
use clip_share_desktop.Text.{convert_to_lf}
use clip_share_desktop.Text.Crlf.{increase, converted, convert_eol}
use clip_share_desktop.Text.Crlf.InPlace.{add_cr}
use clip_share_desktop.Text.Crlf.Meaning.{convert_eol-add_cr}
use clip_share_desktop.Connect.Tls.{Answers, Tls, init_ssl_ctx, connects, unused, next}
use clip_share_desktop.Connect.Tls.Sound.{IsSound, Steps-IsSound}
use clip_share_desktop.Clipboard.Copied.{CopiedType}
use clip_share_desktop.Windows.{Windows}
use clip_share_desktop.Windows.Clipboard.{
  get_copied_type, get_clipboard_text, put_clipboard_text, get_copied_files,
}
use clip_share_desktop.Files.Walk.{regular}
use clip_share_desktop.Windows.Dirs.{DirFiles, dropped_paths, first_path_len, get_copied_dirs_files}
use clip_share_desktop.Windows.Cut.{total_size, drop_names, wide_paths, set_clipboard_cut_files}
use clip_share_desktop.Windows.Sessions.{Owing}
use clip_share_desktop.Windows.Closing.{clipboard-Owing}
use clip_share_desktop.Windows.Layout.{read_names, drop_names-read_names}

-- One of the two line ends has its CR.
abbrev mixed : Bytes
mixed = codes "a\r\nb\nc"

convert_eol-add_cr_example :
    (convert_eol (some (7 ∷ [])) false mixed
      ≡ converted (add_cr none mixed ++ (0 ∷ [])) (length (add_cr none mixed)))
    × (increase none (add_cr none mixed) ≡ 0)
    × (convert_to_lf (add_cr none mixed) ≡ convert_to_lf mixed)
unfolding increase
convert_eol-add_cr_example =
    convert_eol-add_cr mixed (7 ∷ [])
      (omega arith, (omega arith, (omega arith, (omega arith, (omega arith, (omega arith, tt))))))
      refl (omega arith)

mixed_converted : convert_eol (some (7 ∷ [])) false mixed ≡ converted (codes "a\r\nb\r\nc\0") 7
unfolding convert_eol
mixed_converted = refl

-- The certificate of the authority cannot be added at first.
abbrev refused : Answers
refused = record {
  method = true;
  ctx_made = true;
  p12_read = true;
  p12_parsed = true;
  cert_used = true;
  key_matches = true;
  ca_read = true;
  ca_added = false;
}

abbrev accepted : Answers
accepted = record refused { ca_added = true }

abbrev unset : Tls
unset = record { ctx = none; events = [] }

Steps-IsSound_example : IsSound (init_ssl_ctx accepted (init_ssl_ctx refused unset))
Steps-IsSound_example = Steps-IsSound (next (next unused (connects refused)) (connects accepted))

-- A wide string has the bytes as its characters.
abbrev host : Windows
host = record {
  to_wide = λ s. some s;
  to_utf8 = λ s. some s;
  temp = some (codes "C:\\Temp");
  wide_text = λ h. codes "hi";
  dropped = λ h. codes "C:\\a" ∷ codes "C:\\dir" ∷ [];
  attributes = λ s. if str_eq s (codes "C:\\dir") then 16 else 128;
  wstat = λ s. some regular;
  read_wdir = λ s. some (codes "." ∷ codes ".." ∷ codes "f" ∷ []);
}

walked :
    dropped_paths host true (codes "C:\\dir" ∷ codes "C:\\a" ∷ [])
    ≡ codes "C:\\dir\\f" ∷ codes "C:\\a" ∷ []
unfolding dropped_paths str_eq
walked = refl

behind_drive : first_path_len host (codes "C:\\dir" ∷ []) ≡ 3
unfolding str_eq
behind_drive = refl

clipboard-Owing_example :
    Owing 0 CopiedType get_copied_type
    × Owing 0 (Option Bytes) (get_clipboard_text host)
    × Owing 0 Bool (put_clipboard_text host (codes "hi"))
    × Owing 0 (Option (List Bytes)) (get_copied_files host)
    × Owing 0 DirFiles (get_copied_dirs_files host true)
    × Owing 0 Bool (set_clipboard_cut_files host (codes "C:\\a" ∷ []))
clipboard-Owing_example = clipboard-Owing host (codes "hi") true (codes "C:\\a" ∷ [])

abbrev cut_paths : List Bytes
cut_paths = codes "a" ∷ codes "bc" ∷ []

drop_names-read_names_example :
    (read_names 3 (drop_names cut_paths) ≡ cut_paths)
    × (length (drop_names cut_paths) * 2 + 20 ≡ total_size cut_paths)
unfolding wide_paths
drop_names-read_names_example =
    drop_names-read_names host cut_paths cut_paths refl
      (((omega arith, tt), omega arith), (((omega arith, (omega arith, tt)), omega arith), tt))
