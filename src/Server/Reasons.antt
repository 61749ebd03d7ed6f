-- ===== src/Server/Reasons.antt =====
-- status_reason of lab5-src/http_messages.c.
use cs.Common.{ℕ, List, codes, ◌==◌, if◌then◌else◌}

unfoldable pub status_reason : ℕ → List ℕ
status_reason status =
    if status == 100
    then codes "Continue"
    else if status == 101
    then codes "Switching Protocols"
    else if status == 200
    then codes "OK"
    else if status == 201
    then codes "Created"
    else if status == 202
    then codes "Accepted"
    else if status == 203
    then codes "Non-Authoritative Information"
    else if status == 204
    then codes "No Content"
    else if status == 205
    then codes "Reset Content"
    else if status == 206
    then codes "Partial Content"
    else if status == 300
    then codes "Multiple Choices"
    else if status == 301
    then codes "Moved Permanently"
    else if status == 302
    then codes "Found"
    else if status == 303
    then codes "See Other"
    else if status == 304
    then codes "Not Modified"
    else if status == 305
    then codes "Use Proxy"
    else if status == 307
    then codes "Temporary Redirect"
    else if status == 400
    then codes "Bad Request"
    else if status == 401
    then codes "Unauthorized"
    else if status == 402
    then codes "Payment Required"
    else if status == 403
    then codes "Forbidden"
    else if status == 404
    then codes "Not Found"
    else if status == 405
    then codes "Method Not Allowed"
    else if status == 406
    then codes "Not Acceptable"
    else if status == 407
    then codes "Proxy Authentication Required"
    else if status == 408
    then codes "Request Time-out"
    else if status == 409
    then codes "Conflict"
    else if status == 410
    then codes "Gone"
    else if status == 411
    then codes "Length Required"
    else if status == 412
    then codes "Precondition Failed"
    else if status == 413
    then codes "Request Entity Too Large"
    else if status == 414
    then codes "Request-URI Too Large"
    else if status == 415
    then codes "Unsupported Media Type"
    else if status == 416
    then codes "Requested range not satisfiable"
    else if status == 417
    then codes "Expectation Failed"
    else if status == 500
    then codes "Internal Server Error"
    else if status == 501
    then codes "Not Implemented"
    else if status == 502
    then codes "Bad Gateway"
    else if status == 503
    then codes "Service Unavailable"
    else if status == 504
    then codes "Gateway Time-out"
    else if status == 505
    then codes "HTTP Version not supported"
    else codes "Unknown status"
