-- ===== src/Tests/Transfers.antt =====
-- Files that are received and sent.
use clip_share_desktop.Prelude.{
  ◌≡◌, refl, sym, ap, ◌∙◌, true, false, ◌||◌, ◌&&◌, List, [], ◌∷◌, ◌++◌, arith, codes, some, pos,
}
use clip_share_desktop.Net.{plain_sock, ssl_sock, Recv, chunk, recv_fault, again, size_bytes}
use clip_share_desktop.World.{Env}
use clip_share_desktop.World.Trace.{wire, written}
use clip_share_desktop.Action.{ok, stuck}
use clip_share_desktop.Action.Healthy.{on, Stream}
use clip_share_desktop.Text.{
  c_str, drop_last_sep, contains, has_substring, starts_with, after_last_sep,
}
use clip_share_desktop.Files.Name.{received_path, valid_characters}
use clip_share_desktop.Methods.Save.{above, receive_contents, save_file}
use clip_share_desktop.Methods.Save.Contents.{Saved, receive_contents-Saved}
use clip_share_desktop.Methods.Send.{send_contents, transfer_regular_file}
use clip_share_desktop.Methods.Send.Contents.{SentAll, send_contents-hangs}
use clip_share_desktop.Methods.Send.File.{file_bytes, transfer_regular_file-SentAll}
use clip_share_desktop.Methods.RoundTrip.{Offered, Accepted, file_round_trip}
use clip_share_desktop.Tests.Setup.{machine, content, size_limit}

abbrev arriving : List Recv
arriving = chunk (codes "da") ∷ recv_fault again ∷ chunk (codes "ta!") ∷ []

receive_contents-Saved_example :
    Saved
      (codes "./a")
      4
      []
      (receive_contents 4 (codes "./a") 4 machine (on plain_sock arriving []))
receive_contents-Saved_example =
    receive_contents-Saved 4 4 (codes "./a") machine (on plain_sock arriving []) (omega arith)

abbrev cut : List Recv
cut = chunk (codes "da") ∷ chunk (codes "ta!") ∷ []

abbrev sized : List Recv
sized = chunk (0 ∷ 0 ∷ 0 ∷ 0 ∷ 0 ∷ 0 ∷ 0 ∷ 4 ∷ []) ∷ chunk content ∷ []

sized-Stream : Stream plain_sock sized (size_bytes (pos 4) ++ (content ++ []))
unfolding size_bytes
sized-Stream = record { delivers = tt; bytes = refl }

pub within : above (pos 4) machine.config.max_file_size ≡ false
within = rw size_limit refl

pub within_or :
    (above (pos 4) machine.config.max_file_size
      || false && above (pos 4) machine.config.auto_send_max_file_size)
    ≡ false
within_or = ap (λ b. b || false) within

abbrev pub named : List Recv
named = chunk (0 ∷ 0 ∷ 0 ∷ 0 ∷ 0 ∷ 0 ∷ 0 ∷ 1 ∷ 97 ∷ []) ∷ sized

named-Stream :
    Stream plain_sock named
      (size_bytes (pos 1) ++ (codes "a" ++ (size_bytes (pos 4) ++ (content ++ []))))
unfolding size_bytes
named-Stream = record { delivers = tt; bytes = refl }

a_path : received_path 1 (codes ".") (codes "a") ≡ some (codes "./a")
unfolding received_path c_str drop_last_sep contains has_substring starts_with after_last_sep
a_path = refl

a_valid : valid_characters (codes "a") ≡ true
unfolding valid_characters
a_valid = refl

abbrev emptied : Env
emptied = record machine { file_data = λ h path n. [] }

send_contents-hangs_example :
    (send_contents 1000 (codes "/f") 4 emptied (on ssl_sock [] [])).0 ≡ stuck
send_contents-hangs_example =
    send_contents-hangs emptied (codes "/f") 1000 4 (on ssl_sock [] []) (omega arith) (λ h. refl)

a_Offered : Offered machine (codes "/f") content
a_Offered = record {
  file = λ h n. refl;
  opens = refl;
  size = refl;
  allowed = within;
  patience = omega arith;
}

a_Accepted : Accepted machine (codes ".") (codes "a") (codes "./a") content
a_Accepted = record {
  some_name = omega arith;
  short = omega arith;
  valid = refl;
  characters = a_valid;
  placed = a_path;
  absent = refl;
  creates = refl;
  writes = λ h path bs. refl;
  allowed = within;
}

abbrev sent_file : List Recv
sent_file =
    chunk (0 ∷ 0 ∷ 0 ∷ 0 ∷ 0 ∷ 0 ∷ 0 ∷ 1 ∷ 97 ∷ 0 ∷ [])
    ∷ chunk (0 ∷ 0 ∷ 0 ∷ 0 ∷ 0 ∷ 0 ∷ 4 ∷ 100 ∷ [])
    ∷ chunk (codes "ata")
    ∷ []

sent_file_bytes :
    file_bytes (codes "a") content
    ≡ 0 ∷ 0 ∷ 0 ∷ 0 ∷ 0 ∷ 0 ∷ 0 ∷ 1 ∷ 97 ∷ 0 ∷ 0 ∷ 0 ∷ 0 ∷ 0 ∷ 0 ∷ 0 ∷ 4 ∷ content
unfolding size_bytes
sent_file_bytes = refl

as_it_was_sent : Stream plain_sock sent_file (
    wire
      (transfer_regular_file (codes "/f") (codes "a") false machine (on ssl_sock [] [])).1.history)
as_it_was_sent =
    let t : SentAll ssl_sock [] [] (file_bytes (codes "a") content)
        (transfer_regular_file (codes "/f") (codes "a") false machine (on ssl_sock [] [])) =
      transfer_regular_file-SentAll machine (codes "/f") (codes "a") content false ssl_sock [] []
        (λ h n. refl) refl refl within_or (omega arith) in
    record {
      delivers = tt;
      bytes = sym (ap (λ r. wire r.1.history) t.runs ∙ t.all ∙ sent_file_bytes);
    }

file_round_trip_example :
    ((save_file 1 (codes ".") machine (on plain_sock sent_file [])).0 ≡ ok tt)
    × (written
          (codes "./a")
          (save_file 1 (codes ".") machine (on plain_sock sent_file [])).1.history
        ≡ content)
file_round_trip_example =
    file_round_trip machine machine ssl_sock plain_sock (codes "/f") (codes ".") (codes "a") content
      b'.' (codes "/a") [] sent_file a_Offered a_Accepted (omega arith) as_it_was_sent
