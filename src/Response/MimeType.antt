-- ===== src/Response/MimeType.antt =====
-- `Response::Extension2MimeType` of src/Response.cpp.
mod Tests
use web_socket_cpp.Base.{[], ◌∷◌, ByteArray, codes}
use web_socket_cpp.Names.Hash.{switch}

unfoldable pub extension_to_mime_type : ByteArray → ByteArray
unfolding switch
extension_to_mime_type extension =
    switch extension
      ((codes "aac", codes "audio/aac")
        ∷ (codes "abw", codes "application/x-abiword")
        ∷ (codes "arc", codes "application/x-freearc")
        ∷ (codes "avi", codes "video/x-msvideo")
        ∷ (codes "azw", codes "application/vnd.amazon.ebook")
        ∷ (codes "bin", codes "application/octet-stream")
        ∷ (codes "bmp", codes "image/bmp")
        ∷ (codes "bz", codes "application/x-bzip")
        ∷ (codes "bz2", codes "application/x-bzip2")
        ∷ (codes "csh", codes "application/x-csh")
        ∷ (codes "css", codes "text/css")
        ∷ (codes "csv", codes "text/csv")
        ∷ (codes "doc", codes "application/msword")
        ∷ (
          codes "docx",
          codes "application/vnd.openxmlformats-officedocument.wordprocessingml.document",
        )
        ∷ (codes "eot", codes "application/vnd.ms-fontobject")
        ∷ (codes "epub", codes "application/epub+zip")
        ∷ (codes "gz", codes "application/gzip")
        ∷ (codes "gif", codes "image/gif")
        ∷ (codes "htm", codes "text/html")
        ∷ (codes "html", codes "text/html")
        ∷ (codes "ico", codes "image/vnd.microsoft.icon")
        ∷ (codes "ics", codes "text/calendar")
        ∷ (codes "jar", codes "application/java-archive")
        ∷ (codes "jpeg", codes "image/jpeg")
        ∷ (codes "jpg", codes "image/jpeg")
        ∷ (codes "js", codes "text/javascript")
        ∷ (codes "json", codes "application/json")
        ∷ (codes "jsonld", codes "application/ld+json")
        ∷ (codes "mid", codes "audio/midi audio/x-midi")
        ∷ (codes "mjs", codes "text/javascript")
        ∷ (codes "mp3", codes "audio/mpeg")
        ∷ (codes "mpeg", codes "video/mpeg")
        ∷ (codes "mpkg", codes "application/vnd.apple.installer+xml")
        ∷ (codes "odp", codes "application/vnd.oasis.opendocument.presentation")
        ∷ (codes "ods", codes "application/vnd.oasis.opendocument.spreadsheet")
        ∷ (codes "odt", codes "application/vnd.oasis.opendocument.text")
        ∷ (codes "oga", codes "audio/ogg")
        ∷ (codes "ogv", codes "video/ogg")
        ∷ (codes "ogx", codes "application/ogg")
        ∷ (codes "opus", codes "audio/opus")
        ∷ (codes "otf", codes "font/otf")
        ∷ (codes "png", codes "image/png")
        ∷ (codes "pdf", codes "application/pdf")
        ∷ (codes "php", codes "application/x-httpd-php")
        ∷ (codes "ppt", codes "application/vnd.ms-powerpoint")
        ∷ (
          codes "pptx",
          codes "application/vnd.openxmlformats-officedocument.presentationml.presentation",
        )
        ∷ (codes "rar", codes "application/vnd.rar")
        ∷ (codes "rtf", codes "application/rtf")
        ∷ (codes "sh", codes "application/x-sh")
        ∷ (codes "svg", codes "image/svg+xml")
        ∷ (codes "swf", codes "application/x-shockwave-flash")
        ∷ (codes "tar", codes "application/x-tar")
        ∷ (codes "tif", codes "image/tiff")
        ∷ (codes "tiff", codes "image/tiff")
        ∷ (codes "ts", codes "video/mp2t")
        ∷ (codes "ttf", codes "font/ttf")
        ∷ (codes "txt", codes "text/plain")
        ∷ (codes "vsd", codes "application/vnd.visio")
        ∷ (codes "wav", codes "audio/wav")
        ∷ (codes "weba", codes "audio/webm")
        ∷ (codes "webm", codes "video/webm")
        ∷ (codes "webp", codes "image/webp")
        ∷ (codes "woff", codes "font/woff")
        ∷ (codes "woff2", codes "font/woff2")
        ∷ (codes "xhtml", codes "application/xhtml+xml")
        ∷ (codes "xls", codes "application/vnd.ms-excel")
        ∷ (codes "xlsx", codes "application/vnd.openxmlformats-officedocument.spreadsheetml.sheet")
        ∷ (codes "xml", codes "application/xml")
        ∷ (codes "xul", codes "application/vnd.mozilla.xul+xml")
        ∷ (codes "zip", codes "application/zip")
        ∷ (codes "3gp", codes "video/3gpp")
        ∷ (codes "3g2", codes "video/3gpp2")
        ∷ (codes "7z", codes "application/x-7z-compressed")
        ∷ [])
      (codes "application/octet-stream")
