-- ===== src/Acme/Paths.antt =====
-- The files of internal/acme stand apart: a write of one leaves the others.
use tripflare.Base.{
  GoString, bytes, str_eq, str_eq_refl, join, lookup, insert, lookup-insert, ◌≡◌, refl, ◌∙◌, false,
  Option, some, String, [], ◌∷◌, ◌++◌, arith,
}
use tripflare.Acme.Files.{Disk, Write, write_file}
use tripflare.Acme.Types.{Svc, cert_dir}
use tripflare.Acme.Manager.{cert_file, key_file}

str_eq-append : (p a b : GoString) → str_eq (p ++ a) (p ++ b) ≡ str_eq a b
unfolding str_eq
str_eq-append [] a b = refl
str_eq-append (x ∷ p) a b = ground (arith, str_eq-append p a b)

pub str_eq-join : (dir a b : GoString) → str_eq (join dir a) (join dir b) ≡ str_eq a b
unfolding join
str_eq-join [] a b = refl
str_eq-join (c ∷ dir) a b = str_eq-append ((c ∷ dir) ++ bytes "/") a b

pub lookup-write_file :
    (outcome : GoString → Write) (message : String) (path other_path data_ : GoString) (disk : Disk)
    → str_eq path other_path ≡ false
    → lookup other_path (write_file outcome message path data_ disk).1 ≡ lookup other_path disk
unfolding write_file
lookup-write_file outcome message path other_path data_ disk apart =
    grind (arith, lookup-insert {V = GoString} path other_path)

-- what the disk has for the certificate and its key
abbrev pub pair_files : Svc → Disk → Option GoString × Option GoString
pair_files s disk = (lookup (cert_file s) disk, lookup (key_file s) disk)

pub pair_files-write_file :
    (outcome : GoString → Write) (message : String) (s : Svc) (name data_ : GoString) (disk : Disk)
    → str_eq name (bytes "cert.pem") ≡ false
    → str_eq name (bytes "key.pem") ≡ false
    → pair_files s (write_file outcome message (join (cert_dir s) name) data_ disk).1
      ≡ pair_files s disk
pair_files-write_file outcome message s name data_ disk p q = rw (
  lookup-write_file outcome message _ (cert_file s) data_ disk
      (str_eq-join (cert_dir s) name (bytes "cert.pem") ∙ p),
  lookup-write_file outcome message _ (key_file s) data_ disk
      (str_eq-join (cert_dir s) name (bytes "key.pem") ∙ q),
)

pub pair_files-insert :
    (s : Svc) (c k : GoString) (disk : Disk)
    → pair_files s (insert (key_file s) k (insert (cert_file s) c disk)) ≡ (some c, some k)
unfolding str_eq
pair_files-insert s c k disk =
    let key_differs : str_eq (key_file s) (cert_file s) ≡ false =
      str_eq-join (cert_dir s) (bytes "key.pem") (bytes "cert.pem") in
    rw (
      lookup-insert (key_file s) (cert_file s) k (insert (cert_file s) c disk),
      key_differs,
      lookup-insert (cert_file s) (cert_file s) c disk,
      str_eq_refl (cert_file s),
      lookup-insert (key_file s) (key_file s) k (insert (cert_file s) c disk),
      str_eq_refl (key_file s),
    )
