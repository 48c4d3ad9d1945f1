-- ===== src/Tests/Setup.antt =====
-- A machine on which everything works, and the connections of the examples.
use clip_share_desktop.Prelude.{
  ◌≡◌, refl, Bool, true, false, none, some, Bytes, codes, pos, drop, take,
}
use clip_share_desktop.Config.Defaults.{initial_config, apply_default_conf}
use clip_share_desktop.World.{Call, exists, Env, History}
use clip_share_desktop.World.Trace.{position}

abbrev pub text : Bytes
text = codes "hi\n"

abbrev pub content : Bytes
content = codes "data"

-- No file is there, and every other request succeeds.
abbrev pub answers : History → Call → Bool
answers h (exists path) = false
answers h c = true

abbrev pub machine : Env
machine = record {
  config = apply_default_conf initial_config;
  has_callback = true;
  cwd = codes "/home";
  u8_valid = λ bs. true;
  answer = answers;
  patience = 10;
  millis = λ h. 1000;
  fresh_id = λ h. 7;
  clipboard_text = λ h. some (codes "hi\r\n");
  copied_files = λ h. none;
  copied_dirs_files = λ dirs h. (none, 0);
  file_size = λ h path. pos 4;
  file_data = λ h path n. take n (drop (position h) content);
  entries = λ h path. none;
}

pub text_limit : machine.config.max_text_length ≡ 4194304
unfolding apply_default_conf
text_limit = refl

pub size_limit : machine.config.max_file_size ≡ pos 68719476736
unfolding apply_default_conf
size_limit = refl
