-- ===== src/Server/FileServer/Page.antt =====
-- `FileServer::build_directory_html`: the page of a directory.
use file_web_server.Base.{Bool, List, [], ◌∷◌, ◌++◌, if◌then◌else◌, Bytes, codes}
use file_web_server.Base.Int.{ℤ}
use file_web_server.Http.Response.{Tm}
use file_web_server.Server.FileServer.Listing.{
  DirEntry, html_escape, url_encode_path, format_size, format_local_time, with_slash,
}

-- CSS
unfoldable pub css : Bytes
css =
    codes "\n"
    ++ (codes "*{margin:0;padding:0;box-sizing:border-box}\n"
        ++ (codes
              "body{font-family:-apple-system,BlinkMacSystemFont,\"Segoe UI\",Helvetica,Arial,sans-serif;background:#0d1117;color:#e6edf3;line-height:1.6;min-height:100vh}\n"
            ++ (codes ".container{max-width:960px;margin:0 auto;padding:32px 24px}\n"
                ++ (codes
                      "h1{font-size:24px;font-weight:600;margin-bottom:24px;color:#e6edf3;display:flex;align-items:center;gap:10px}\n"
                    ++ (codes "h1 .icon{font-size:26px}\n"
                        ++ (codes
                              "table{width:100%;border-collapse:collapse;background:#161b22;border:1px solid #30363d;border-radius:8px;overflow:hidden}\n"
                            ++ (codes
                                  "thead th{text-align:left;padding:12px 16px;font-size:13px;font-weight:600;color:#8b949e;border-bottom:1px solid #30363d;background:#0d1117;user-select:none}\n"
                                ++ (codes
                                      "tbody tr{border-bottom:1px solid #21262d;transition:background .12s ease}\n"
                                    ++ (codes "tbody tr:last-child{border-bottom:none}\n"
                                        ++ (codes "tbody tr:hover{background:#1c2128}\n"
                                            ++ (codes "td{padding:10px 16px;font-size:14px}\n"
                                                ++ (codes
                                                      "td.name a{color:#58a6ff;text-decoration:none;display:inline-flex;align-items:center;gap:8px}\n"
                                                    ++ (codes
                                                          "td.name a:hover{color:#79c0ff;text-decoration:underline}\n"
                                                        ++ (codes
                                                            "td.size{color:#8b949e;font-variant-numeric:tabular-nums;width:100px}\n"
                                                            ++ (codes
                                                            "td.date{color:#8b949e;font-variant-numeric:tabular-nums;width:170px}\n"
                                                            ++ (codes
                                                            "tr.parent td{border-bottom:1px solid #30363d;padding-top:10px;padding-bottom:10px}\n"
                                                            ++ (codes
                                                            "tr.parent td.name a{color:#e6edf3;font-weight:500}\n"
                                                            ++ (codes ".icon-dir{color:#58a6ff}\n"
                                                            ++ (codes ".icon-file{color:#8b949e}\n"
                                                            ++ (codes
                                                            "footer{margin-top:24px;text-align:center;font-size:12px;color:#484f58}\n"
                                                            ++ (codes
                                                            "@media(max-width:600px){.container{padding:16px 12px}h1{font-size:20px}td.date{display:none}td.size{width:70px}}\n"
                                                            ++ [])))))))))))))))))))))

-- The target of an entry's link: relative below the root, and otherwise under the request path.
unfoldable pub entry_href : Bytes → Bool → DirEntry → Bytes
entry_href request_path show_parent e =
    (if show_parent
      then url_encode_path e.name
      else with_slash request_path ++ url_encode_path e.name)
    ++ (if e.is_dir then codes "/" else [])

-- One row of the table. localtime_r is the first argument.
unfoldable pub entry_row : (ℤ → Tm) → Bytes → Bool → DirEntry → Bytes
unfolding entry_href
entry_row localtime request_path show_parent e =
    codes "<tr>\n<td class=\"name\"><a href=\""
    ++ (entry_href request_path show_parent e
        ++ (codes "\">"
            ++ ((if e.is_dir
                  then codes "<span class=\"icon-dir\">&#x1F4C2;</span> "
                  else codes "<span class=\"icon-file\">&#x1F4C4;</span> ")
                ++ (html_escape e.name
                    ++ ((if e.is_dir then codes "/" else [])
                        ++ (codes "</a></td>\n<td class=\"size\">"
                            ++ ((if e.is_dir then codes "-" else format_size e.size)
                                ++ (codes "</td>\n<td class=\"date\">"
                                    ++ (format_local_time (localtime e.last_modified)
                                        ++ codes "</td>\n</tr>\n")))))))))

unfoldable pub rows : (ℤ → Tm) → Bytes → Bool → List DirEntry → Bytes
rows localtime request_path show_parent [] = []
rows localtime request_path show_parent (e ∷ es) =
    entry_row localtime request_path show_parent e ++ rows localtime request_path show_parent es

unfoldable pub parent_row : Bytes
parent_row =
    codes "<tr class=\"parent\">\n<td class=\"name\"><a href=\"../\">&#x1F4C2; ../</a></td>\n"
    ++ codes "<td class=\"size\">-</td>\n<td class=\"date\">-</td>\n</tr>\n"

-- The text before the rows.
unfoldable pub page_head : Bytes → Bytes
page_head request_path =
    codes "<!DOCTYPE html>\n<html lang=\"zh-CN\">\n<head>\n<meta charset=\"utf-8\">\n"
    ++ (codes "<meta name=\"viewport\" content=\"width=device-width, initial-scale=1\">\n"
        ++ (codes "<title>Index of "
            ++ (html_escape request_path
                ++ (codes "</title>\n<style>\n"
                    ++ (css
                        ++ (codes "</style>\n</head>\n<body>\n<div class=\"container\">\n"
                            ++ (codes "<h1><span class=\"icon\">&#x1F4C1;</span> Index of "
                                ++ (html_escape request_path
                                    ++ (codes "</h1>\n<table>\n<thead>\n<tr>"
                                        ++ (codes
                                              "<th>Name</th><th class=\"size\">Size</th><th class=\"date\">Modified</th>"
                                            ++ codes "</tr>\n</thead>\n<tbody>\n"))))))))))

unfoldable pub build_directory_html : (ℤ → Tm) → Bytes → List DirEntry → Bool → Bytes
unfolding rows
build_directory_html localtime request_path entries show_parent =
    page_head request_path
    ++ ((if show_parent then parent_row else [])
        ++ (rows localtime request_path show_parent entries
            ++ (codes "</tbody>\n</table>\n<footer>web_server_cpp/1.0</footer>\n"
                ++ codes "</div>\n</body>\n</html>")))
