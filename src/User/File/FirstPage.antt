-- ===== src/User/File/FirstPage.antt =====
-- fmap of lib/file.c where no page of the file is mapped yet.
use kludgeos.Base.{ℕ, ◌/◌, ◌≤◌, ◌≡◌, ◌==◌, inl, inr, Bool-cases, Code, Errno, ok, err, arith}
use kludgeos.User.Space.{Space, Server, Run, returns, ptpages}
use kludgeos.User.File.{data_page, pages_of, round_up, with_table}
use kludgeos.User.File.Mapping.{HasTable}
use kludgeos.User.File.Receiving.{SendsPages, Ends}

module _ {σ : Type 0} (server : Server σ) (fd : ℕ) (sends : SendsPages server) where
  -- The process with the page table of the file's pages, without pages if it was not there.
  abbrev pub tabled : Space σ → Space σ
  tabled s = record s { vpt = with_table s.vpt (data_page fd) }

  tabled_same : (s : Space σ) → HasTable s fd → tabled s ≡ s
  unfolding with_table
  tabled_same s tables = λ i. record s { vpt = λ p. at p i }
    where
      at : (p : ℕ) → with_table s.vpt (data_page fd) p ≡ s.vpt p
      at p = elim (Bool-cases (p / ptpages == data_page fd / ptpages)) [
        | inl same ↦
            let (e, is) = tables p (ground (arith, same)) (ground (arith, same)) in
            ground (arith, same, is)
        | inr other ↦ ground (arith, other)
      ]

  -- How fmap ends: with nothing to map, with a first page that the server refuses, or, since the
  -- first page that comes makes the page table, as in a process that has the table.
  pub data Mapped (oldsize newsize : ℕ) (s : Space σ) : Run σ (Code (Unit {0})) → Type 0 where
    nothing : pages_of newsize ≤ pages_of oldsize → Mapped oldsize newsize s (returns (ok tt) s)
    no_page :
        (x : Errno) (t : σ) → Mapped oldsize newsize s (returns (err x) (record s { server = t }))
    with_pages :
        (run : Run σ (Code (Unit {0})))
        → Ends server fd sends
            (pages_of oldsize)
            (pages_of oldsize)
            (pages_of newsize)
            (tabled s)
            run
        → Mapped oldsize newsize s run

  module _ (oldsize newsize : ℕ) (s : Space σ) where
    -- What the server answers to the first request.
    first_answer : Code ℕ × σ
    first_answer = server.fsipc_map (server.file_id fd s.server) (round_up oldsize) s.server
