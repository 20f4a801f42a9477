-- ===== src/Tests/Links.antt =====
-- Runs of the theorems on links that lead out of a dav.
use vestirust.Prelude.{true, false, none, some, ◌≡◌, refl, ok, length, str_eq, if◌then◌else◌}
use vestirust.Davs.Webdav.FileSystem.{FileSystem}
use vestirust.Davs.Webdav.Paths.{is_absolute, split_slash}
use vestirust.Davs.Webdav.FilePath.{starts_with, components}
use vestirust.Davs.Webdav.PathItem.{is_root_contained}
use vestirust.Davs.Webdav.PathItem.Within.{IsWithin, IsWithin-contained}
use vestirust.Davs.Webdav.Response.{default_response, status_not_found}
use vestirust.Davs.Webdav.Dispatch.{call}
use vestirust.Davs.Webdav.Dispatch.Links.{call-outside, call-missing}
use vestirust.Davs.Webdav.Dispatch.Get.{get_request}
use vestirust.Tests.Cipher.{counting_cipher, reads_all}
use vestirust.Tests.Files.{
  OneFile, file_metadata, one_file, libraries, texts, chance, files, content, with_a, request,
  extracted,
}

-- All that is in the directory is behind links to `/etc`.
abbrev linked : FileSystem OneFile
linked = record one_file {
  canonicalize = λ w path. some (if str_eq path "/srv" then "/srv" else "/etc/passwd");
}

outside : ¬ IsWithin linked with_a "/srv/a" "/srv"
unfolding is_root_contained starts_with components is_absolute split_slash
outside h =
    let contained = IsWithin-contained linked with_a "/srv/a" "/srv" h in
    let same : false ≡ true = contained in cc

call-outside_example :
    call counting_cipher reads_all texts libraries 0 chance linked files
      (get_request request)
      with_a
    ≡ (with_a, ok (status_not_found default_response))
call-outside_example =
    call-outside counting_cipher reads_all texts libraries 0 chance linked files
      (get_request request) "/srv/a" (file_metadata (length content)) with_a extracted refl refl
      outside

call-missing_example :
    call counting_cipher reads_all texts libraries 0 chance linked files request none
    ≡ call counting_cipher reads_all texts libraries 0 chance linked
        (record files { allow_symlinks = true })
        request
        none
call-missing_example =
    call-missing counting_cipher reads_all texts libraries 0 chance linked files request "/srv/a"
      none extracted refl
