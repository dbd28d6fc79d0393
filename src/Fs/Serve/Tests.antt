-- ===== src/Fs/Serve/Tests.antt =====
-- The theorems on the file server's requests at an empty table.
use kludgeos.Base.{
  ℕ, ◌+◌, ◌≡◌, refl, true, false, ◌==◌, leb, if◌then◌else◌, List, [], ◌∷◌, none, ok, arith,
}
use kludgeos.Fs.Disk.{Fs, returns, s_root}
use kludgeos.Fs.Dir.{file_open, walk_path, walk_rounds, skip_slash}
use kludgeos.Fs.Serve.{
  Server, zero_fd, gives, dies, pte_share, req_path, until_nul, page, fd_of, serve_open, serve_init,
  serve_close,
}
use kludgeos.Fs.Serve.Table.{TableValid, with_page, serve_init-TableValid}
use kludgeos.Fs.Serve.Opens.{Opens, serve_open_lem, serve_close_never_opened}

abbrev disk_words : ℕ → ℕ
disk_words w = if w == 1025 then 64 else 0

abbrev cache : Fs
cache = record {
  super_set = true;
  bitmap_set = true;
  mem = disk_words;
  mapped = λ b. leb b 7;
  dirty = λ b. false;
  disk = disk_words;
  disk_fails = λ b. false;
  frames = 9;
}

-- No file was opened yet.
abbrev blank : Server
blank = record {
  fs = cache;
  opentab = λ i. record { o_fileid = 0; o_file = none; o_mode = 1 };
  fd_ref = λ i. 0;
  fd_page = λ i. zero_fd;
}

abbrev started : Server
started = record blank { opentab = λ i. record { o_fileid = i; o_file = none; o_mode = 1 } }

started-TableValid : TableValid started
unfolding serve_init
started-TableValid = serve_init-TableValid blank

-- "/"
abbrev root_path : List ℕ
root_path = b'/' ∷ 0 ∷ []

root_opens :
    file_open (req_path root_path) (with_page started 0) ≡ returns (ok s_root) (with_page started 0)
unfolding file_open until_nul walk_path walk_rounds skip_slash
root_opens = refl

serve_open_lem_example :
    (s' : Server) × (serve_open root_path 0 started ≡ gives (page (fd_of 0) (7 + pte_share)) s')
    × Opens started s_root 0 s'
serve_open_lem_example =
    serve_open_lem started root_path 0 s_root 0 (with_page started 0) started-TableValid
      (omega arith) (λ j h. absurd (omega arith)) (omega arith) (λ h. omega arith) (omega arith)
      root_opens refl

serve_close_never_opened_example : serve_close 5 (serve_init blank) ≡ dies
serve_close_never_opened_example = serve_close_never_opened blank 5 (omega arith) refl refl
