-- ===== src/Response/MimeType/Tests.antt =====
-- Names of files and their types.
use web_socket_cpp.Base.{◌≡◌, refl, codes}
use web_socket_cpp.Response.MimeType.{extension_to_mime_type}

page : extension_to_mime_type (codes "html") ≡ codes "text/html"
unfolding extension_to_mime_type
page = refl

unknown : extension_to_mime_type (codes "cpp") ≡ codes "application/octet-stream"
unfolding extension_to_mime_type
unknown = refl
