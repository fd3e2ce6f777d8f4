-- ===== src/Write/Writer/Stored/Finished.antt =====
-- src/write.rs: `finish_file` behind the content of an entry that is stored.
use zip.Prelude.{
  ℕ, ◌+◌, ◌^◌, ◌≤◌, ◌<◌, ◌≡◌, refl, ap, ◌∙◌, arith, Bool, true, false, none, some, List, [], ◌∷◌,
  ◌++◌, length,
}
use zip.Result.{ok}
use zip.Cursor.{Cursor, wrote}
use zip.Spec.Records.{zip64_bytes_thr}
use zip.Types.File.{ZipFileData}
use zip.Write.Monad.{Writer}
use zip.Write.Headers.{update_aes, update_aes_extra_data, update_local_file_header}
use zip.Write.Headers.Updated.{sizes, update_small}
use zip.Write.Generic.{storer, unencrypted}
use zip.Write.State.{Environment, ZipWriter, map_last-append, get_last?-append, bind_ok, on_plain}
use zip.Write.Writer.{finish_file, finished_file, update_to, update_headers, update_headers_of}
use zip.Write.Writer.Stored.{idle, filled, ended, sealed}

module _ (K : Environment) where
  open K use {hashing, default_for_write}

  pub on_plain_ok :
      {A : Type 0} (m : Writer A) (s : ZipWriter K) (c : Cursor) {a : A} {c' : Cursor}
      → s.inner ≡ storer (unencrypted c)
      → m c ≡ some (ok a, c')
      → on_plain m s ≡ some (ok a, record s { inner = storer (unencrypted c') })
  unfolding on_plain
  on_plain_ok m s c inner h = rw (inner, h) refl

  no_aes :
      (f : ZipFileData) (c : Cursor)
      → f.aes_mode ≡ none
      → update_aes_extra_data f c ≡ some (ok f, c)
  unfolding update_aes_extra_data
  no_aes f c h = ap (λ m. update_aes m f c) h

  -- What an entry needs for its header to be updated.
  pub record IsOpen (f : ZipFileData) : Type 0 where
    pub not_aes : f.aes_mode ≡ none
    pub not_large : f.large_file ≡ false
    pub near : f.header_start + 14 < 2 ^ 64

  module _ (f : ZipFileData) (o : IsOpen f) (c : Cursor) (content : List ℕ) where
    finished_stored :
        (start : ℕ)
        → c.pos + length content < 2 ^ 64
        → finished_file {K = K}
            (record {
              hasher = hashing.update hashing.new_hasher content;
              start = c.pos;
              bytes_written = length content;
            })
            (c.pos + length content)
            f
          ≡ ended K f c.pos content
    unfolding finished_file
    finished_stored start fits = rw o.not_aes (
        ap
          (λ n. record f {
            crc32 = hashing.finalize (hashing.update hashing.new_hasher content);
            compressed_size = n;
            uncompressed_size = length content;
            aes_mode = none;
          })
          (omega arith))

    updated_to :
        (files : List ZipFileData) (comment : List ℕ) (flush : Bool)
        → length content ≤ zip64_bytes_thr
        → update_to
            (c.pos + length content)
            (ended K f c.pos content)
            (filled K c (files ++ f ∷ []) c.pos comment flush content)
          ≡ some (
            ok true,
            record (filled K c
                (files ++ ended K f c.pos content ∷ [])
                c.pos
                comment
                flush
                content) { inner = storer (unencrypted (sealed K f c content)) },
          )
    unfolding update_to
    updated_to files comment flush small = rw (map_last-append) (
        bind_ok (on_plain (update_aes_extra_data g)) _ (behind (files ++ g ∷ [])) no_change
        ∙ rw (map_last-append)
            (bind_ok (on_plain (update_local_file_header g)) _ (behind (files ++ g ∷ [])) changed))
      where
        g : ZipFileData
        g = ended K f c.pos content

        behind : List ZipFileData → ZipWriter K
        behind l = filled K c l c.pos comment flush content

        no_change :
            on_plain (update_aes_extra_data g) (behind (files ++ g ∷ []))
            ≡ some (ok g, behind (files ++ g ∷ []))
        no_change =
            on_plain_ok (update_aes_extra_data g) (behind (files ++ g ∷ [])) (wrote content c) refl
              (no_aes g (wrote content c) o.not_aes)

        changed :
            on_plain (update_local_file_header g) (behind (files ++ g ∷ []))
            ≡ some (
              ok tt,
              record (behind (files ++ g ∷ [])) {
                inner = storer (
                    unencrypted (record (sealed K f c content) {
                      pos =
                          f.header_start
                          + 14
                          + length (
                              sizes
                                (hashing.finalize (hashing.update hashing.new_hasher content))
                                (length content)
                                (length content));
                    }));
              },
            )
        changed =
            on_plain_ok (update_local_file_header g) (behind (files ++ g ∷ [])) (wrote content c)
              refl (update_small g (wrote content c) o.not_large small o.near)

    updated_headers :
        (files : List ZipFileData) (comment : List ℕ) (flush : Bool)
        → length content ≤ zip64_bytes_thr
        → c.pos + length content < 2 ^ 64
        → update_headers (filled K c (files ++ f ∷ []) c.pos comment flush content)
          ≡ some (
            ok true,
            record (filled K c
                (files ++ ended K f c.pos content ∷ [])
                c.pos
                comment
                flush
                content) { inner = storer (unencrypted (sealed K f c content)) },
          )
    unfolding update_headers
    updated_headers files comment flush small fits =
        ap (λ o. update_headers_of o (filled K c (files ++ f ∷ []) c.pos comment flush content))
          (get_last?-append files f)
        ∙ ap
            (λ g.
              update_to (c.pos + length content) g
                (filled K c (files ++ f ∷ []) c.pos comment flush content))
            (finished_stored c.pos fits)
        ∙ updated_to files comment flush small

    pub finished :
        (files : List ZipFileData) (comment : List ℕ) (flush : Bool)
        → length content ≤ zip64_bytes_thr
        → c.pos + length content < 2 ^ 64
        → finish_file (filled K c (files ++ f ∷ []) c.pos comment flush content)
          ≡ some (
            ok tt,
            idle K
                (sealed K f c content)
                (files ++ ended K f c.pos content ∷ [])
                (record {
                  hasher = hashing.update hashing.new_hasher content;
                  start = c.pos;
                  bytes_written = length content;
                })
                false
                comment
                flush,
          )
    unfolding finish_file
    finished files comment flush small fits =
        bind_ok update_headers _ (filled K c (files ++ f ∷ []) c.pos comment flush content)
          (updated_headers files comment flush small fits)
