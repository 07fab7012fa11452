-- ===== src/Rpc/FileService.antt =====
-- rpc/FileRpcServiceImpl: listing, upload and download.
use web_cloud_disk.Base.{
  ℕ, ◌||◌, Option, none, some, List, [], Bytes, codes, AppError, Result, success, failure, ◌==◌,
  if◌then◌else◌, map,
}
use web_cloud_disk.Model.{FileInfo}
use web_cloud_disk.Flow.{Flow, answer, call, then_with}
use web_cloud_disk.Backend.{Contents, Request, Reply, compute, read_file}
use web_cloud_disk.Security.Crypto.{Crypto}
use web_cloud_disk.Storage.Local.{FileStorage}
use web_cloud_disk.Messaging.Json.{JsonLibrary}
use web_cloud_disk.Service.Files.{UploadedFile, DownloadFile, list, upload, find_download}
use web_cloud_disk.Rpc.Messages.{
  ListFilesResponse, UploadFileResponse, DownloadFileResponse, ok_status, error_status, add_file,
}
use web_cloud_disk.Rpc.UserService.{invalid_user_id}

unfoldable pub list_response : Result (List FileInfo) → ListFilesResponse
list_response (failure e) = record { status = error_status e; files = [] }
list_response (success files) = record { status = ok_status; files = map add_file files }

unfoldable pub upload_response : Result UploadedFile → UploadFileResponse
upload_response (failure e) = record { status = error_status e; file_id = 0; filename = [] }
upload_response (success u) = record {
  status = ok_status;
  file_id = u.file_id;
  filename = u.filename;
}

abbrev pub download_error : AppError → DownloadFileResponse
download_error e = record { status = error_status e; filename = []; content = [] }

-- The reading of the opened stream; `none` is a stream that did not open.
unfoldable pub read_response : Bytes → Option Contents → DownloadFileResponse
read_response filename none =
    download_error (record { status_code = 404; message = codes "File not found" })
read_response filename (some input) =
    if input.bad
    then download_error (record { status_code = 500; message = codes "Failed to read stored file" })
    else record { status = ok_status; filename = filename; content = input.content }

unfoldable pub download_response : Result DownloadFile → Flow Request Reply DownloadFileResponse
unfolding read_response
download_response (failure e) = answer (download_error e)
download_response (success d) =
    call compute λ _. call (read_file d.path) λ input. answer (read_response d.filename input)

module _ {J : Type 0} (escape : Bytes → Bytes) (crypto : Crypto) (json : JsonLibrary J)
    (s : FileStorage) (publisher : Option Bytes) (max_file_size : ℕ) where
  unfoldable pub rpc_list_files : ℕ → Flow Request Reply ListFilesResponse
  unfolding list list_response
  rpc_list_files user_id =
      if user_id == 0
      then answer (record { status = error_status invalid_user_id; files = [] })
      else then_with (list escape s user_id) (λ result. answer (list_response result))

  unfoldable pub rpc_upload_file : ℕ → Bytes → Bytes → Flow Request Reply UploadFileResponse
  unfolding upload upload_response
  rpc_upload_file user_id filename content =
      if user_id == 0
      then answer (record { status = error_status invalid_user_id; file_id = 0; filename = [] })
      else call compute λ _.
        then_with (upload escape crypto json s publisher max_file_size user_id filename content)
          (λ result. answer (upload_response result))

  unfoldable pub rpc_download_file : ℕ → ℕ → Flow Request Reply DownloadFileResponse
  unfolding find_download download_response
  rpc_download_file user_id file_id =
      if user_id == 0 || file_id == 0
      then answer
          (download_error (record { status_code = 400; message = codes "Invalid user or file ID" }))
      else then_with (find_download escape s user_id file_id) download_response
