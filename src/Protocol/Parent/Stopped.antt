-- ===== src/Protocol/Parent/Stopped.antt =====
-- A download that the user stops, and starts again.
use mhftp.Base.{ℕ, ◌≡◌, Option, ◌∙◌, List}
use mhftp.Posix.{Bytes, FileName}
use mhftp.Crypt.{Md5}
use mhftp.Metadata.{Metadata}
use mhftp.Metadata.Reset.Effects
use mhftp.Protocol.Download.Invariant.{Setting}

module _ {md5 : Md5} {remote : Bytes} {c k : ℕ} {meta_file local_file : FileName}
    {header : Metadata} (setting : Setting md5 remote c meta_file local_file header k) where
  -- The same for an object that has the sizes of the header.
  pub resized :
      (m : Metadata)
      → m.chunk_size ≡ header.chunk_size
      → m.file_size ≡ header.file_size
      → Setting md5 remote c meta_file local_file m k
  resized m same same_file = record {
    apart = setting.apart;
    sized = same ∙ setting.sized;
    positive = setting.positive;
    fits = setting.fits;
    measured = same_file ∙ setting.measured;
    cut = setting.cut;
    few = setting.few;
  }
