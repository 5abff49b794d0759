-- ===== src/Version.antt =====
-- pkg/version/version.go: the version that the build fills in.
use flatcar_linux_update_ope.Prelude.{String, ◌<>◌, [], ◌∷◌}
use flatcar_linux_update_ope.Result.{Result, wrapping}

-- `Version` and `Commit`, which the linker may set.
pub record Build : Type 0 where
  pub version : String
  pub commit : String

abbrev pub unset : Build
unset = record { version = "UNKNOWN"; commit = "UNKNOWN" }

-- `init`: what becomes of `Semver`, where `parse` is `semver.Parse`; an error is a `klog.Fatalf`.
unfoldable pub init : {Semver : Type 0} → (String → Result Semver) → Build → Result Semver
init parse b =
    wrapping
      ("Invalid build of update operator; version.Version must be set at compile "
        <> "time to a valid semver value. %v could not parse: %v")
      (b.version ∷ []) (parse b.version)

-- `Format`
unfoldable pub format : Build → String
format b = "Version: " <> b.version <> "\nCommit: " <> b.commit
