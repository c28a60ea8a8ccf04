-- ===== src/Cluster/Local/NodeFiles.antt =====
-- cluster/local/node.go: the files of a node that is a directory of the host.
use clustertest.Prelude.{
  ◌≡◌, String, [], ◌∷◌, Option, none, some, Error, wrap, str, Result, ok, arith,
}
use clustertest.Process.Writer.{Reader, contents}
use clustertest.Paths.{FilePath, dir}
use clustertest.Agent.Files.{Os, Disk, copy_to}
use clustertest.Agent.RoundTrip.{file-copy_to}

module _ (O : Os) (show : FilePath → String) where
  -- `SendFile` after the directories were made; the error of the copy is not wrapped.
  create_file : FilePath → Reader → O.State → Option Error × O.State
  create_file p body s = elim (O.create p s).0 [
    | some e ↦ (some (wrap "creating file %q" (str (show p) ∷ []) e), (O.create p s).1)
    | none ↦ copy_to O p body.chunks body.fault (O.create p s).1
  ]

  -- `SendFile`
  unfoldable pub send_file : FilePath → Reader → O.State → Option Error × O.State
  unfolding create_file
  send_file p body s = elim (O.mkdir_all (dir p) s).0 [
    | some e ↦ (some (wrap "making intermediate dirs" [] e), (O.mkdir_all (dir p) s).1)
    | none ↦ create_file p body (O.mkdir_all (dir p) s).1
  ]

  -- `ReadFile`
  unfoldable pub read_file : FilePath → O.State → Result Reader
  read_file p s = O.open_file p s

  create_file_ok :
      (p : FilePath) (body : Reader) (s : O.State)
      → (create_file p body s).0 ≡ none
      → ((O.create p s).0 ≡ none)
        × (create_file p body s ≡ copy_to O p body.chunks body.fault (O.create p s).1)
  unfolding create_file
  create_file_ok p body s e = ground arith

  send_file_ok :
      (p : FilePath) (body : Reader) (s : O.State)
      → (send_file p body s).0 ≡ none
      → send_file p body s ≡ create_file p body (O.mkdir_all (dir p) s).1
  unfolding send_file
  send_file_ok p body s e = ground arith

  module _ (D : Disk O) where
    file-create_file :
        (p : FilePath) (body : Reader) (s : O.State)
        → (create_file p body s).0 ≡ none
        → D.file p (create_file p body s).1 ≡ some (contents body.chunks)
    file-create_file p body s e =
        let (made, same) = create_file_ok p body s e in
        rw same
          (file-copy_to O D p body.chunks body.fault [] _ (D.file-create p s made) (rw same at e))

    -- If the local `SendFile` returns no error then the path holds the whole content that was sent.
    pub file-send_file_local :
        (p : FilePath) (body : Reader) (s : O.State)
        → (send_file p body s).0 ≡ none
        → D.file p (send_file p body s).1 ≡ some (contents body.chunks)
    file-send_file_local p body s e =
        let same = send_file_ok p body s e in rw same (file-create_file p body _ (rw same at e))

    -- If the local `SendFile` returns no error then `ReadFile` of the path gives a reader of the
    -- whole content that was sent.
    pub read_file-send_file_local :
        (p : FilePath) (body : Reader) (s : O.State)
        → (send_file p body s).0 ≡ none
        → (r : Reader) × (read_file p (send_file p body s).1 ≡ ok r)
          × (contents r.chunks ≡ contents body.chunks)
    unfolding read_file
    read_file-send_file_local p body s e =
        D.open_file-file p (contents body.chunks) (send_file p body s).1
          (file-send_file_local p body s e)
