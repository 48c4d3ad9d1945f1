-- ===== src/Clipboard.antt =====
-- utils/utils.c: `url_encode`, `url_decode` and `set_clipboard_cut_files` on Linux.
pub mod Url
pub mod CutFiles
pub mod Copied
pub mod Pending
pub mod Listing
