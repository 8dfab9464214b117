-- ===== src/Web/Policy.antt =====
-- PutConfig of internal/web/web.go: what a request makes of the policy.
use cardingest.Base.{Option, none, some, ◌≡◌, refl, ap, Outcome, ok, err, wrap}
use cardingest.Base.Strings.{Text}
use cardingest.Config
use cardingest.Config.{File}
use cardingest.Config.Store.{Disk, Yaml, StoreError, PolicyStore, parse_file, save, marshal_policy}
use cardingest.Config.Store.Atomic.{IsReliable, IsAtomic, save-IsAtomic}
use cardingest.Rules.{Glob, Engine}
use cardingest.Rules.Size.{Float}
use cardingest.Rules.Compile.{RuleError, compile}
use cardingest.Web.{
  PutAnswer, stored, refused_request, refused_text, refused_rules, save_failed, after_save,
  after_compile, after_parse, put_policy,
}

module _ (D : Disk) (Y : Yaml) (G : Glob) (N : Float) (store : PolicyStore D Y) (text : Text) where
  -- The policy and what its file reads as are as they were.
  abbrev pub IsUntouched : PolicyStore D Y → Type 0
  IsUntouched t =
      (t.file ≡ store.file)
      × (t.path ≡ store.path)
      × (D.read_file t.disk store.path ≡ D.read_file store.disk store.path)

  -- The policy is the one of the request, whose rules compile, and its text is on disk.
  abbrev pub IsPut : PolicyStore D Y → Type 0
  IsPut t =
      (Y.unmarshal text ≡ ok t.file)
      × ((engine : Engine) × (compile G N t.file.rules ≡ ok engine))
      × (t.path ≡ store.path)
      × ((written : Text) × (Y.marshal t.file ≡ ok written)
          × (D.read_file t.disk store.path ≡ ok written))

  -- What each answer says of the store after it.
  abbrev pub Tells : PutAnswer × PolicyStore D Y → Type 0
  Tells (stored shown, t) = IsPut t
  Tells (refused_request reason, t) = ⊥
  Tells (refused_text e, t) =
      (wrap Config.Store.parse_config (Y.unmarshal text) ≡ err e) × (t ≡ store)
  Tells (refused_rules e, t) =
      ((f : File) × (Y.unmarshal text ≡ ok f) × (compile G N f.rules ≡ err e)) × (t ≡ store)
  Tells (save_failed e, t) = IsUntouched t

  after_save-Tells :
      (R : IsReliable D store.path) (f : File) (rules : Engine)
      (x : Option StoreError × PolicyStore D Y)
      → Y.unmarshal text ≡ ok f
      → compile G N f.rules ≡ ok rules
      → IsAtomic D Y store R f x
      → Tells (after_save D Y x)
  after_save-Tells R f rules (some e, t) parsed compiled h = h
  after_save-Tells R f rules (none, t) parsed compiled (same, at_path, (written, e, found)) =
      (rw same parsed, (rules, rw same compiled), at_path, (written, rw same e, found))

  after_compile-Tells :
      (R : IsReliable D store.path) (f : File) (r : Outcome RuleError Engine)
      → Y.unmarshal text ≡ ok f
      → compile G N f.rules ≡ r
      → Tells (after_compile D Y store f r)
  after_compile-Tells R f (err e) parsed compiled = ((f, parsed, compiled), refl)
  after_compile-Tells R f (ok rules) parsed compiled =
      after_save-Tells R f rules (save D Y store f) parsed compiled (save-IsAtomic D Y store R f)

  after_parse-Tells :
      (R : IsReliable D store.path) (m : Outcome Text File)
      → Y.unmarshal text ≡ m
      → Tells (after_parse D Y G N store (wrap Config.Store.parse_config m))
  after_parse-Tells R (err cause) parsed = (ap (wrap Config.Store.parse_config) parsed, refl)
  after_parse-Tells R (ok f) parsed = after_compile-Tells R f (compile G N f.rules) parsed refl

  -- Where the disk is reliable for the policy's path, PutConfig answers with the new text only if the
  -- request's text parses as a policy whose rules compile; that policy is then the store's, and its
  -- text is on disk. If it answers that the text does not parse, or that the rules do not compile,
  -- that is so, and the store and its disk are as they were. If the save fails, the store has the
  -- policy that it had, and the file reads as it did.
  pub put_policy-Tells : IsReliable D store.path → Tells (put_policy D Y G N store text)
  unfolding put_policy parse_file
  put_policy-Tells R = after_parse-Tells R (Y.unmarshal text) refl
